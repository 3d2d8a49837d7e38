-- ===== src/Inventory/Batches/Refine.antt =====
-- What clients of the batch inventory see: a quantity for every store and product. The table of batches
-- implements it.
pub mod Steps
use modern_trade_website.Prelude.Int.{◌-ℤ◌, parts_of_eq, int_laws, pos, neg_part, ℤ, ◌+ℤ◌}
use modern_trade_website.Prelude.Table.Keyed.{All-update-All, Distinct-update}
use modern_trade_website.Prelude.{
  leb, ◌∷◌, ◌∙◌, ◌+◌, ℕ, ◌<◌, ◌≡◌, Bool, ◌==◌, All, refl, Bool-cases, List, ◌&&◌, inl, ◌⊎◌, inr,
  true, ◌≢◌, false, arith, ◌-◌, [], if◌then◌else◌, All-imp, leb→le, lt→ltb, some, All-append,
  Option, none, head?, ==_refl, sym, ◌++◌,
}
use modern_trade_website.Inventory.Batches.{
  deduct_from_batch, BatchData, add_batch_inventory, insert_batch, is_batch,
}
use modern_trade_website.Inventory.Fifo.{batches_for_fifo, portion, deduct_rows, take_from}
use modern_trade_website.Inventory.Fifo.Loop.{
  deduct_rows-stock_ne, on_hand, deduct_rows-stock, deduct_rows-AllNonneg, deduct_rows-remaining,
}
use modern_trade_website.Inventory.Rows.{AllNonneg, Batch, stock}
use modern_trade_website.Prelude.Table.{Distinct, select}
use modern_trade_website.Inventory.Batches.Deduct.{
  rows-AreFrom, rows_other, rows-stock, rows-of_product,
}
use modern_trade_website.Prelude.Outcome.{is_ok}
use modern_trade_website.Inventory.Batches.Adjust.{stock-add_batch_inventory}

-- The calls of a client.
pub data Op : Type 0 where
  -- addBatchInventory, at an instant
  add : BatchData → ℕ → Op
  -- deductFromBatch of a product in a store
  deduct : ℕ → ℕ → ℕ → Op

-- The table's side; the database gives a new row the next id. The answer is whether the call succeeded.
abbrev pub run_op : Op → ℕ → List Batch → Bool × List Batch
run_op (add d now) next t = (true, add_batch_inventory d next now t)
run_op (deduct p s q) next t = (is_ok (deduct_from_batch p s q t).0, (deduct_from_batch p s q t).1)

abbrev pub run : List Op → ℕ → List Batch → List Bool × List Batch
run [] next t = ([], t)
run (op ∷ ops) next t =
    let (b, t') = run_op op next t in let (bs, last) = run ops (next + 1) t' in (b ∷ bs, last)

-- The client's side: what is available of a product in a store.
abbrev pub Available : Type 0
Available = ℕ → ℕ → ℕ

abbrev pub with_quantity : ℕ → ℕ → ℕ → Available → Available
with_quantity s p n f s' p' = if s' == s && p' == p then n else f s' p'

abbrev pub replay_op : Op → Available → Bool × Available
replay_op (add d now) f =
    (true, with_quantity d.store_id d.product_id (f d.store_id d.product_id + d.quantity) f)
replay_op (deduct p s q) f = (leb q (f s p), with_quantity s p (f s p - q) f)

abbrev pub replay : List Op → Available → List Bool × Available
replay [] f = ([], f)
replay (op ∷ ops) f =
    let (b, f') = replay_op op f in let (bs, last) = replay ops f' in (b ∷ bs, last)

-- A table that holds what is available, with ids below the next one.
pub record Holds (next : ℕ) (t : List Batch) (f : Available) : Type 0 where
  pub unique : Distinct (λ b. b.id) t
  pub nonneg : AllNonneg t
  pub below : All (λ b. b.id < next) t
  pub view : (s p : ℕ) → stock s p t ≡ pos (f s p)
