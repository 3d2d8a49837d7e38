-- ===== src/Inventory/Reservations.antt =====
-- StockReservationService of backend/src/services/stockReservationService.ts over the tables
-- batch_inventory and stock_reservations. An instant is a number of milliseconds.
pub mod Coverage
pub mod Lifecycle
pub mod Race
use modern_trade_website.Prelude.{
  ℕ, ◌+◌, ◌*◌, Bool, true, false, List, [], ◌∷◌, ◌++◌, Option, none, some, ◌&&◌, ◌||◌, not, ◌==◌,
  ◌=?◌, ltb, if◌then◌else◌, head?, is_some,
}
use modern_trade_website.Prelude.Int.{ℤ, pos, ◌-ℤ◌, ltb_ℤ}
use modern_trade_website.Prelude.Outcome.{Result, ok, err, M, modify, return, ◌>>◌}
use modern_trade_website.Prelude.Table.{select, update, sum, sum_ℤ, count}
use modern_trade_website.Inventory.Rows.{
  Batch, Reservation, ReservationStatus, active, consumed, cancelled, expired, Shelf, is_active,
  of_product, holds_product, stock, reserved,
}

pub data ReservationError : Type 0 where
  insufficient_stock : (available : ℤ) (requested : ℕ) → ReservationError
  not_found_or_closed : ReservationError

pub record ReservationData : Type 0 where
  pub cart_id : Option ℕ
  pub order_id : Option ℕ
  pub product_id : ℕ
  pub store_id : ℕ
  pub batch_id : Option ℕ
  pub quantity : ℕ
  pub expires_in_minutes : Option ℕ

-- `expires_in_minutes || 30`: 0 counts as missing.
abbrev minutes_or_30 : Option ℕ → ℕ
minutes_or_30 none = 30
minutes_or_30 (some m) = if m == 0 then 30 else m

-- The two queries of checkAvailableStock: for a batch, and for the product.
unfoldable pub check_available_stock : ℕ → ℕ → Option ℕ → Shelf → ℤ
check_available_stock product store none db =
    stock store product db.batches -ℤ pos (reserved store product db.reservations)
check_available_stock product store (some batch) db =
    sum_ℤ (λ b. b.batch_id == batch && of_product store product b) (λ b. b.quantity) db.batches
    -ℤ pos (
        sum (λ r. r.batch_id =? batch && holds_product store product r) (λ r. r.quantity)
          db.reservations)

abbrev new_row : ReservationData → ℕ → ℕ → Reservation
new_row d id now = record {
  reservation_id = id;
  cart_id = d.cart_id;
  order_id = d.order_id;
  product_id = d.product_id;
  store_id = d.store_id;
  batch_id = d.batch_id;
  quantity = d.quantity;
  reserved_at = now;
  expires_at = now + minutes_or_30 d.expires_in_minutes * 60000;
  status = active;
}

-- The check of createReservation, and its INSERT. They are two queries without a lock or a transaction, so
-- that other calls may come between them.
unfoldable pub check_reservation : ReservationData → Shelf → Result ReservationError (Unit {0})
check_reservation d db =
    let available = check_available_stock d.product_id d.store_id d.batch_id db in
    if ltb_ℤ available (pos d.quantity)
    then err (insufficient_stock available d.quantity)
    else ok tt

unfoldable pub insert_reservation : ReservationData → ℕ → ℕ → Shelf → Shelf
insert_reservation d id now db = record db {
  reservations = db.reservations ++ new_row d id now ∷ [];
}

-- createReservation with no other call between the two; `id` is what generate_reservation_id() answers.
unfoldable pub create_reservation : ReservationData → ℕ → ℕ → M Shelf ReservationError Reservation
unfolding check_reservation insert_reservation
create_reservation d id now =
    (λ db. (check_reservation d db, db))
    >> modify (insert_reservation d id now)
    >> return (new_row d id now)

-- getReservation, getCartReservations and getOrderReservations. The table keeps its rows in the
-- order of creation.
unfoldable pub get_reservation : ℕ → Shelf → Option Reservation
get_reservation id db = head? (select (λ r. r.reservation_id == id) db.reservations)

unfoldable pub get_cart_reservations : ℕ → Shelf → List Reservation
get_cart_reservations cart db =
    select (λ r. is_active r.status && r.cart_id =? cart) db.reservations

unfoldable pub get_order_reservations : ℕ → Shelf → List Reservation
get_order_reservations order db = select (λ r. r.order_id =? order) db.reservations

-- WHERE reservation_id = $1 AND status = 'ACTIVE'
abbrev pub is_open : ℕ → Reservation → Bool
is_open id r = is_active r.status && r.reservation_id == id

abbrev pub set_status : ReservationStatus → Reservation → Reservation
set_status s r = record r { status = s }

abbrev found : Option Reservation → ReservationStatus → Result ReservationError Reservation
found none s = err not_found_or_closed
found (some r) s = ok (set_status s r)

-- consumeReservation and cancelReservation are the same but for the status that they write.
unfoldable pub close_reservation :
    ReservationStatus → ℕ → Shelf → Result ReservationError Reservation × Shelf
close_reservation s id db = (
  found (head? (select (is_open id) db.reservations)) s,
  record db { reservations = update (is_open id) (set_status s) db.reservations },
)

unfoldable pub consume_reservation : ℕ → Shelf → Result ReservationError Reservation × Shelf
unfolding close_reservation
consume_reservation id db = close_reservation consumed id db

unfoldable pub cancel_reservation : ℕ → Shelf → Result ReservationError Reservation × Shelf
unfolding close_reservation
cancel_reservation id db = close_reservation cancelled id db

abbrev pub of_cart : ℕ → Reservation → Bool
of_cart cart r = is_active r.status && r.cart_id =? cart

-- cancelCartReservations
unfoldable pub cancel_cart_reservations : ℕ → Shelf → ℕ × Shelf
cancel_cart_reservations cart db = (
  count (of_cart cart) db.reservations,
  record db { reservations = update (of_cart cart) (set_status cancelled) db.reservations },
)

-- transferReservationsToOrder
unfoldable pub transfer_reservations_to_order : ℕ → ℕ → Shelf → Shelf
transfer_reservations_to_order cart order db = record db {
  reservations =
      update (of_cart cart) (λ r. record r { order_id = some order; cart_id = none })
        db.reservations;
}

-- WHERE status = 'ACTIVE' AND order_id IS NULL AND expires_at < NOW()
abbrev pub is_overdue : ℕ → Reservation → Bool
is_overdue now r = is_active r.status && (not (is_some r.order_id) && ltb r.expires_at now)

-- expireReservations
unfoldable pub expire_reservations : ℕ → Shelf → ℕ × Shelf
expire_reservations now db = (
  count (is_overdue now) db.reservations,
  record db { reservations = update (is_overdue now) (set_status expired) db.reservations },
)
