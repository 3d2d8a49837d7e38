-- ===== src/Inventory/Issue.antt =====
-- Issuing stock to a sale or an order: the batches are lowered and a movement is written for each.
-- The loop is that of updateSaleStatus in backend/src/services/posService.ts, and, with one guard
-- more, that of updateWebOrderStatus in backend/src/services/webOrderService.ts.
pub mod Laws
pub mod Product
use modern_trade_website.Prelude.{
  ℕ, ◌-◌, Bool, List, [], ◌∷◌, ◌++◌, ◌&&◌, ◌==◌, ltb, leb, if◌then◌else◌, ◌||◌,
}
use modern_trade_website.Prelude.Int.{pos, ◌-ℤ◌}
use modern_trade_website.Prelude.Table.{select, order_by}
use modern_trade_website.Inventory.Rows.{
  Batch, Movement, ReferenceType, Shelf, of_product, has_stock,
}
use modern_trade_website.Inventory.Fifo.{take_from, portion}

-- What a movement refers to.
pub record Reference : Type 0 where
  pub store_id : ℕ
  pub product_id : ℕ
  pub reference_id : ℕ
  pub reference_type : ReferenceType
  pub performed_by : ℕ

-- ORDER BY expiry_date, created_at
abbrev pub by_expiry_created : Batch → Batch → Bool
by_expiry_created a b =
    ltb a.expiry_date b.expiry_date
    || (a.expiry_date == b.expiry_date && leb a.created_at b.created_at)

-- SELECT id, batch_id, quantity … AND quantity > 0 … FOR UPDATE
unfoldable pub locked_batches : ℕ → ℕ → Shelf → List Batch
locked_batches store product db =
    order_by by_expiry_created (select (λ b. of_product store product b && has_stock b) db.batches)

-- One round: the UPDATE of the batch and the INSERT of the movement.
unfoldable pub issue_one : Reference → ℕ → Batch → Shelf → Shelf
issue_one ref d b db = record db {
  batches = take_from d b.id db.batches;
  movements =
      db.movements
      ++ record {
        store_id = ref.store_id;
        product_id = ref.product_id;
        batch_id = b.batch_id;
        quantity = pos 0 -ℤ pos d;
        reference_id = ref.reference_id;
        reference_type = ref.reference_type;
        performed_by = ref.performed_by;
      }
        ∷ [];
}

-- The loop of the POS.
unfoldable pub issue_rows : Reference → List Batch → ℕ → Shelf → Shelf × ℕ
issue_rows ref [] remaining db = (db, remaining)
issue_rows ref (b ∷ bs) remaining db =
    let d = portion remaining b in
    let rest = issue_rows ref bs (remaining - d) (issue_one ref d b db) in
    if leb remaining 0 then (db, remaining) else rest

-- The loop of the web orders: `if (deduct <= 0) continue`.
unfoldable pub deliver_rows : Reference → List Batch → ℕ → Shelf → Shelf × ℕ
deliver_rows ref [] remaining db = (db, remaining)
deliver_rows ref (b ∷ bs) remaining db =
    let d = portion remaining b in
    let skipped = deliver_rows ref bs remaining db in
    let rest = deliver_rows ref bs (remaining - d) (issue_one ref d b db) in
    if leb remaining 0 then (db, remaining) else if leb d 0 then skipped else rest

-- A row of web_order_items or of sale_items, with the order or the sale that it belongs to.
pub record Item : Type 0 where
  pub owner_id : ℕ
  pub product_id : ℕ
  pub quantity : ℕ
  pub unit_price : ℕ
  pub line_total : ℕ

-- SELECT … WHERE order_id = $1 ORDER BY product_id
abbrev pub items_of : ℕ → List Item → List Item
items_of owner items =
    order_by (λ i j. leb i.product_id j.product_id) (select (λ i. i.owner_id == owner) items)
