-- ===== src/Inventory/Fifo.antt =====
-- Taking a quantity from the batches of a product, oldest expiry first: the query
-- getProductBatchesForFIFO and the loop of deductFromBatch in backend/src/services/batchService.ts.
-- The POS and the web orders run the same loop and write a movement for each step.
pub mod Order
pub mod Loop
pub mod Exact
use modern_trade_website.Prelude.{
  ℕ, ◌-◌, Bool, List, [], ◌∷◌, ◌&&◌, ◌==◌, ltb, leb, if◌then◌else◌, min,
}
use modern_trade_website.Prelude.Int.{pos, pos_part, ◌-ℤ◌}
use modern_trade_website.Prelude.Table.{select, update, order_by}
use modern_trade_website.Inventory.Rows.{Batch, of_product, has_stock}

abbrev pub by_expiry : Batch → Batch → Bool
by_expiry a b = leb a.expiry_date b.expiry_date

-- SELECT * … AND quantity > 0 ORDER BY expiry_date ASC
unfoldable pub batches_for_fifo : ℕ → ℕ → List Batch → List Batch
batches_for_fifo product store t =
    order_by by_expiry (select (λ b. of_product store product b && has_stock b) t)

-- UPDATE batch_inventory SET quantity = quantity - $1 WHERE id = $2
unfoldable pub take_from : ℕ → ℕ → List Batch → List Batch
take_from d i = update (λ b. b.id == i) (λ b. record b { quantity = b.quantity -ℤ pos d })

-- Math.min(batch.quantity, remaining), for a row with stock
abbrev pub portion : ℕ → Batch → ℕ
portion remaining b = min remaining (pos_part b.quantity)

-- The loop: the table after it, and what is still to be taken.
unfoldable pub deduct_rows : List Batch → ℕ → List Batch → List Batch × ℕ
deduct_rows [] remaining t = (t, remaining)
deduct_rows (b ∷ bs) remaining t =
    let d = portion remaining b in
    let rest = deduct_rows bs (remaining - d) (take_from d b.id t) in
    if leb remaining 0 then (t, remaining) else rest
