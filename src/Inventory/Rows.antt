-- ===== src/Inventory/Rows.antt =====
-- The rows of batch_inventory (interface BatchInventory of batchService.ts), stock_reservations
-- (interface StockReservation of stockReservationService.ts) and inventory_transactions. Ids, dates
-- and instants are numbers; the cost of a batch, the texts of reasons and the metadata columns are left out.
use modern_trade_website.Prelude.{
  ℕ, ◌≡◌, Bool, true, false, Option, List, ◌&&◌, ◌||◌, ◌==◌, ltb, is_some, All,
}
use modern_trade_website.Prelude.Int.{ℤ, pos, neg_part, ltb_ℤ}
use modern_trade_website.Prelude.Table.{sum, sum_ℤ, Distinct}

pub record Batch : Type 0 where
  pub id : ℕ
  pub store_id : ℕ
  pub product_id : ℕ
  pub batch_id : ℕ
  pub expiry_date : ℕ
  pub quantity : ℤ
  pub created_at : ℕ

pub data ReservationStatus : Type 0 where
  active consumed cancelled expired : ReservationStatus

pub record Reservation : Type 0 where
  pub reservation_id : ℕ
  pub cart_id : Option ℕ
  pub order_id : Option ℕ
  pub product_id : ℕ
  pub store_id : ℕ
  pub batch_id : Option ℕ
  pub quantity : ℕ
  pub reserved_at : ℕ
  pub expires_at : ℕ
  pub status : ReservationStatus

pub data ReferenceType : Type 0 where
  cod_order cash_pos : ReferenceType

-- A row of inventory_transactions; the services write the type ISSUE only.
pub record Movement : Type 0 where
  pub store_id : ℕ
  pub product_id : ℕ
  pub batch_id : ℕ
  pub quantity : ℤ
  pub reference_id : ℕ
  pub reference_type : ReferenceType
  pub performed_by : ℕ

-- The three tables as one state.
pub record Shelf : Type 0 where
  pub batches : List Batch
  pub reservations : List Reservation
  pub movements : List Movement

abbrev pub is_active : ReservationStatus → Bool
is_active active = true
is_active _ = false

-- WHERE store_id = … AND product_id = …
abbrev pub of_product : ℕ → ℕ → Batch → Bool
of_product store product b = b.store_id == store && b.product_id == product

abbrev pub has_stock : Batch → Bool
has_stock b = ltb_ℤ (pos 0) b.quantity

-- SELECT SUM(quantity) FROM batch_inventory
abbrev pub stock : ℕ → ℕ → List Batch → ℤ
stock store product = sum_ℤ (of_product store product) (λ b. b.quantity)

abbrev pub holds_product : ℕ → ℕ → Reservation → Bool
holds_product store product r =
    is_active r.status && (r.product_id == product && r.store_id == store)

-- AND (order_id IS NOT NULL OR expires_at > NOW())
abbrev pub is_held : ℕ → ℕ → ℕ → Reservation → Bool
is_held now store product r =
    holds_product store product r && (is_some r.order_id || ltb now r.expires_at)

-- What the POS and the checkout count as reserved.
abbrev pub held : ℕ → ℕ → ℕ → List Reservation → ℕ
held now store product = sum (is_held now store product) (λ r. r.quantity)

-- What the reservation service counts as reserved: expired carts too, until they are swept.
abbrev pub reserved : ℕ → ℕ → List Reservation → ℕ
reserved store product = sum (holds_product store product) (λ r. r.quantity)

abbrev pub AllNonneg : List Batch → Type 0
AllNonneg = All (λ b. neg_part b.quantity ≡ 0)

-- A stock table as the services keep it: distinct ids, and no quantity below 0.
pub record IsWellFormed (db : Shelf) : Type 0 where
  pub unique : Distinct (λ b. b.id) db.batches
  pub nonneg : AllNonneg db.batches

abbrev pub moves : ℕ → ℕ → Movement → Bool
moves s p m = m.store_id == s && m.product_id == p

-- The sum of the movements of a product in a store.
abbrev pub moved : ℕ → ℕ → List Movement → ℤ
moved s p = sum_ℤ (moves s p) (λ m. m.quantity)
