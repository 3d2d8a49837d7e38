-- ===== src/Inventory/Batches/Deduct.antt =====
-- deductFromBatch takes what it is asked for, oldest expiry first; where the stock is short it has
-- emptied the batches by the time it throws.
use mathlib.Core.List.{Memᴰ}
use modern_trade_website.Prelude.{
  ℕ, ◌<◌, ◌≡◌, ◌≢◌, ◌⊎◌, subst, Bool, true, false, List, ◌∷◌, ◌++◌, arith, min, ◌&&◌, lt→ltb, All,
  All-imp, &&_left,
}
use modern_trade_website.Prelude.Int.{pos, ◌-ℤ◌, ◌≤ℤ◌, int_laws, parts_of_eq}
use modern_trade_website.Prelude.Outcome.{err, is_ok}
use modern_trade_website.Prelude.Table.{select, Distinct}
use modern_trade_website.Inventory.Rows.{Batch, of_product, has_stock, stock, AllNonneg}
use modern_trade_website.Inventory.Fifo.{by_expiry, batches_for_fifo, deduct_rows}
use modern_trade_website.Inventory.Fifo.Loop.{
  of_product_other, AreFrom, on_hand, deduct_rows-remaining, deduct_rows-stock,
  deduct_rows-stock_ne, deduct_rows-AllNonneg,
}
use modern_trade_website.Prelude.Table.Order.{order_by-select-All}
use modern_trade_website.Inventory.Fifo.Order.{IsByExpiry, order_by-IsByExpiry, select-AreFrom}
use modern_trade_website.Inventory.Fifo.Exact.{left_in, deduct_rows-left_in, on_hand-stock}
use modern_trade_website.Inventory.Batches.{insufficient_inventory, deduct_from_batch}

abbrev wanted : ℕ → ℕ → Batch → Bool
wanted s p b = of_product s p b && has_stock b

pub rows-of_product :
    (s p : ℕ) (t : List Batch) → All (λ b. of_product s p b ≡ true) (batches_for_fifo p s t)
unfolding batches_for_fifo
rows-of_product s p t =
    All-imp (λ b. wanted s p b ≡ true) (λ b. of_product s p b ≡ true)
      (λ b e. &&_left (of_product s p b) (has_stock b) e) (batches_for_fifo p s t)
      (order_by-select-All by_expiry (wanted s p) t)

sorted_rows : (p s : ℕ) (t : List Batch) → IsByExpiry (batches_for_fifo p s t)
unfolding batches_for_fifo
sorted_rows p s t =
    order_by-IsByExpiry by_expiry (λ a b e. ground arith) (λ a b e. ground arith)
      (select (wanted s p) t)

-- The rows that deductFromBatch reads are rows of the table, all of the one product.
module _ (s p : ℕ) (t : List Batch) (u : Distinct (λ b. b.id) t) where
  pub rows-AreFrom : AreFrom t (batches_for_fifo p s t)
  unfolding batches_for_fifo
  rows-AreFrom = select-AreFrom by_expiry (wanted s p) t u

  pub rows-stock : AllNonneg t → pos (on_hand (batches_for_fifo p s t)) ≡ stock s p t
  unfolding batches_for_fifo
  rows-stock n = on_hand-stock by_expiry s p t n

  pub rows_other :
      (s' p' : ℕ)
      → (s' ≢ s) ⊎ (p' ≢ p)
      → All (λ b. of_product s' p' b ≡ false) (batches_for_fifo p s t)
  rows_other s' p' other =
      All-imp (λ b. of_product s p b ≡ true) (λ b. of_product s' p' b ≡ false)
        (λ b. of_product_other s p s' p' b other) (batches_for_fifo p s t) (rows-of_product s p t)

-- With enough stock in a table with distinct ids and no negative quantity, deductFromBatch
-- succeeds: the stock of the product in the store falls by exactly the quantity, the stock of any
-- other store or product is unchanged, and no quantity falls below 0.
pub deduct_from_batch-enough :
    (p s q s' p' : ℕ) (t : List Batch)
    → Distinct (λ b. b.id) t
    → AllNonneg t
    → pos q ≤ℤ stock s p t
    → (s' ≢ s) ⊎ (p' ≢ p)
    → let (r, t') = deduct_from_batch p s q t in
      (is_ok r ≡ true)
      × (stock s p t' ≡ stock s p t -ℤ pos q)
      × (stock s' p' t' ≡ stock s' p' t)
      × AllNonneg t'
unfolding deduct_from_batch
deduct_from_batch-enough p s q s' p' t u n h other =
    let rows = batches_for_fifo p s t in
    let from = rows-AreFrom s p t u in
    let held = parts_of_eq (rows-stock s p t u n) in
    let done : (deduct_rows rows q t).1 ≡ 0 = omega (arith, deduct_rows-remaining rows q t, held) in
    let all_taken : min q (on_hand rows) ≡ q = omega (arith, held) in
    (
      rw done,
      rw all_taken at (deduct_rows-stock rows q t s p from (rows-of_product s p t)),
      deduct_rows-stock_ne rows q t s' p' from (rows_other s p t u s' p' other),
      deduct_rows-AllNonneg rows q t from n,
    )

-- Where the stock is short, in a table with distinct ids and no negative quantity, deductFromBatch
-- throws, and the product's stock is 0 by then: what was taken before the throw is not put back.
pub deduct_from_batch-short :
    (p s q : ℕ) (t : List Batch)
    → Distinct (λ b. b.id) t
    → AllNonneg t
    → ¬ (pos q ≤ℤ stock s p t)
    → let (r, t') = deduct_from_batch p s q t in
      (r ≡ err insufficient_inventory) × (stock s p t' ≡ pos 0)
unfolding deduct_from_batch
deduct_from_batch-short p s q t u n h =
    let rows = batches_for_fifo p s t in
    let from = rows-AreFrom s p t u in
    let held = parts_of_eq (rows-stock s p t u n) in
    let left : 0 < (deduct_rows rows q t).1 = omega (arith, deduct_rows-remaining rows q t, held) in
    let taken = parts_of_eq (deduct_rows-stock rows q t s p from (rows-of_product s p t)) in
    (rw (lt→ltb 0 (deduct_rows rows q t).1 left), omega (int_laws, taken, held))

-- First expiry, first out, in a table with distinct ids: deductFromBatch reads the batches in order
-- of expiry, and from each batch takes what the batches before it could not give, up to what it
-- holds.
pub deduct_from_batch-fifo :
    (p s q : ℕ) (t pre post : List Batch) (b : Batch)
    → Distinct (λ b. b.id) t
    → batches_for_fifo p s t ≡ pre ++ b ∷ post
    → IsByExpiry (pre ++ b ∷ post) × Memᴰ (left_in q (on_hand pre) b) (deduct_from_batch p s q t).1
unfolding deduct_from_batch
deduct_from_batch-fifo p s q t pre post b u e = (
  subst IsByExpiry e (sorted_rows p s t),
  rw e (deduct_rows-left_in pre post b q t (subst (AreFrom t) e (rows-AreFrom s p t u))),
)
