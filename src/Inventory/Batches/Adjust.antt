-- ===== src/Inventory/Batches/Adjust.antt =====
-- addBatchInventory and adjustBatchQuantity.
use mathlib.Core.List.{Memᴰ}
use modern_trade_website.Prelude.{
  ℕ, ◌≡◌, refl, true, Option, none, some, List, [], arith, ◌&&◌, if◌then◌else◌, ◌==◌, Bool-cases,
  inl, inr, head?,
}
use modern_trade_website.Prelude.Int.{ℤ, pos, ◌+ℤ◌, ltb_ℤ, int_laws, parts_of_eq}
use modern_trade_website.Prelude.Outcome.{ok, err}
use modern_trade_website.Prelude.Table.{select, sum_ℤ, update, Distinct}
use modern_trade_website.Prelude.Table.Keyed.{
  sum_ℤ-update, sum_ℤ-append, first-mem, head?-select_key, mem-update_self, Distinct-update,
}
use modern_trade_website.Inventory.Rows.{Batch, of_product, stock}
use modern_trade_website.Inventory.Batches.{
  BatchData, is_batch, insert_batch, add_batch_inventory, below_zero, adjust_batch_quantity,
}

is_batch-product :
    (d : BatchData) (b : Batch)
    → is_batch d b ≡ true
    → (d.store_id ≡ b.store_id) × (d.product_id ≡ b.product_id)
is_batch-product d b e = ground arith

stock-insert_batch :
    (d : BatchData) (id now s p : ℕ) (t : List Batch) (o : Option Batch)
    → head? (select (is_batch d) t) ≡ o
    → Distinct (λ b. b.id) t
    → stock s p (insert_batch d id now t o)
      ≡ stock s p t +ℤ pos (if d.store_id == s && d.product_id == p then d.quantity else 0)
unfolding sum_ℤ
stock-insert_batch d id now s p t none e u =
    elim (Bool-cases (d.store_id == s && d.product_id == p)) [
      | inl k ↦ rw k (
          omega (
            int_laws,
            rw k at (
                parts_of_eq (
                  sum_ℤ-append (of_product s p) (λ b. b.quantity) t
                    (insert_batch d id now [] none))),
          ))
      | inr k ↦ rw k (
          omega (
            int_laws,
            rw k at (
                parts_of_eq (
                  sum_ℤ-append (of_product s p) (λ b. b.quantity) t
                    (insert_batch d id now [] none))),
          ))
    ]
stock-insert_batch d id now s p t (some b) e u =
    let (m, k) = first-mem (is_batch d) t e in
    let (store, product) = is_batch-product d b k in
    let step = parts_of_eq (
      sum_ℤ-update (λ x. x.id) (of_product s p) (λ x. x.quantity)
        (λ x. record x { quantity = x.quantity +ℤ pos d.quantity }) t m u) in
    elim (Bool-cases (of_product s p b)) [
      | inl h ↦ rw (store, product, h) (omega (int_laws, rw h at step))
      | inr h ↦ rw (store, product, h) (omega (int_laws, rw h at step))
    ]

-- In a table with distinct ids, addBatchInventory raises the stock of the batch's product in its
-- store by the quantity, whether the batch was there or not, and no other stock.
pub stock-add_batch_inventory :
    (d : BatchData) (id now s p : ℕ) (t : List Batch)
    → Distinct (λ b. b.id) t
    → stock s p (add_batch_inventory d id now t)
      ≡ stock s p t +ℤ pos (if d.store_id == s && d.product_id == p then d.quantity else 0)
unfolding add_batch_inventory
stock-add_batch_inventory d id now s p t u =
    stock-insert_batch d id now s p t (head? (select (is_batch d) t)) refl u

abbrev adjusted : ℤ → Batch → Batch
adjusted a b = record b { quantity = b.quantity +ℤ a }

-- In a table with distinct ids, adjustBatchQuantity of a batch of the table writes the sum to the
-- batch whatever its sign: it answers with the row where the sum is not negative, throws where it
-- is, and in both cases the row in the table is the sum.
pub adjust_batch_quantity-written :
    (a : ℤ) (t : List Batch) (b : Batch)
    → Memᴰ b t
    → Distinct (λ x. x.id) t
    → let (r, t') = adjust_batch_quantity b.id a t in
      (r ≡ (if ltb_ℤ (b.quantity +ℤ a) (pos 0) then err below_zero else ok (adjusted a b)))
      × Memᴰ (adjusted a b) t'
unfolding adjust_batch_quantity
adjust_batch_quantity-written a t b m u =
    let t' = update (λ x. x.id == b.id) (adjusted a) t in
    let written : Memᴰ (adjusted a b) t' = mem-update_self (λ x. x.id) (adjusted a) t m in
    let found =
      head?-select_key (λ x. x.id) t' written
        (Distinct-update (λ x. x.id) (λ x. x.id == b.id) (adjusted a) t (λ x. refl) u) in
    (rw found refl, written)
