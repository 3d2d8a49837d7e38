-- ===== src/Inventory/Reservations/Lifecycle.antt =====
-- A reservation is used once, the sweep spares orders, and a reservation of a batch can oversell.
use mathlib.Core.List.{Memᴰ}
use modern_trade_website.Prelude.{
  ℕ, ◌+◌, ◌≡◌, ◌≢◌, refl, true, false, [], arith, none, some, ◌||◌, leb, ==_refl, is_some,
}
use modern_trade_website.Prelude.Int.{pos, ◌≤ℤ◌, ltb_ℤ}
use modern_trade_website.Prelude.Outcome.{err, is_ok}
use modern_trade_website.Prelude.Table.{select, update}
use modern_trade_website.Prelude.Table.Writes.{
  select-update_none, update_of_select_none, mem-update_of_false, mem-update_of_true,
}
use modern_trade_website.Inventory.Rows.{
  Reservation, ReservationStatus, active, consumed, cancelled, expired, Shelf, holds_product, stock,
  reserved,
}
use modern_trade_website.Inventory.Reservations.{
  ReservationData, not_found_or_closed, new_row, set_status, is_open, of_cart, is_overdue,
  check_available_stock, create_reservation, close_reservation, consume_reservation,
  cancel_reservation, transfer_reservations_to_order, get_cart_reservations, expire_reservations,
}
use modern_trade_website.Inventory.Reservations.Coverage.{IsCovered, sum-append}

closed_is_shut :
    (s : ReservationStatus) (id : ℕ) (r : Reservation)
    → s ≢ active
    → is_open id (set_status s r) ≡ false
closed_is_shut s id r n = ground arith

close_twice :
    (s s' : ReservationStatus) (id : ℕ) (db : Shelf)
    → s ≢ active
    → let db' = (close_reservation s id db).1 in
      close_reservation s' id db' ≡ (err not_found_or_closed, db')
unfolding close_reservation
close_twice s s' id db n =
    let t' = update (is_open id) (set_status s) db.reservations in
    let shut : select (is_open id) t' ≡ [] =
      select-update_none (is_open id) (set_status s) db.reservations
        (λ r e. closed_is_shut s id r n) in
    rw (shut, update_of_select_none (is_open id) (set_status s') t' shut) refl

-- A reservation is consumed or cancelled at most once: after either call a second call on the same
-- reservation, of either kind, throws and changes nothing.
pub close_once :
    (id : ℕ) (db : Shelf)
    → let used = (consume_reservation id db).1 in
      let dropped = (cancel_reservation id db).1 in
      (consume_reservation id used ≡ (err not_found_or_closed, used))
      × (cancel_reservation id used ≡ (err not_found_or_closed, used))
      × (consume_reservation id dropped ≡ (err not_found_or_closed, dropped))
      × (cancel_reservation id dropped ≡ (err not_found_or_closed, dropped))
unfolding consume_reservation cancel_reservation
close_once id db = (
  close_twice consumed consumed id db (λ e. cc),
  close_twice consumed cancelled id db (λ e. cc),
  close_twice cancelled consumed id db (λ e. cc),
  close_twice cancelled cancelled id db (λ e. cc),
)

-- The sweep of expired reservations keeps every reservation of an order, however old, and every
-- reservation that has not expired.
pub expire_reservations-keeps :
    (now : ℕ) (db : Shelf) (r : Reservation)
    → Memᴰ r db.reservations
    → (is_some r.order_id || leb now r.expires_at) ≡ true
    → Memᴰ r (expire_reservations now db).1.reservations
unfolding expire_reservations
expire_reservations-keeps now db r m h =
    mem-update_of_false (is_overdue now) (set_status expired) db.reservations m (ground arith)

-- Once a cart's reservations are transferred to an order the cart has none left, and the sweep
-- after that changes no reservation that was the cart's.
pub transfer_reservations-safe :
    (cart order now : ℕ) (db : Shelf) (r : Reservation)
    → Memᴰ r db.reservations
    → of_cart cart r ≡ true
    → let db' = transfer_reservations_to_order cart order db in
      (get_cart_reservations cart db' ≡ [])
      × Memᴰ
          (record r { order_id = some order; cart_id = none })
          (expire_reservations now db').1.reservations
unfolding transfer_reservations_to_order get_cart_reservations
transfer_reservations-safe cart order now db r m h =
    let db' = transfer_reservations_to_order cart order db in
    (
      select-update_none (of_cart cart) _ db.reservations (λ x e. ground arith),
      expire_reservations-keeps now db' (record r { order_id = some order; cart_id = none })
          (mem-update_of_true (of_cart cart) _ db.reservations m h) refl,
    )

-- A reservation that names a batch is only held against that batch. Where the batch has enough
-- left and the product as a whole has not, createReservation succeeds and the product is oversold.
pub create_reservation-oversells :
    (d : ReservationData) (batch id now : ℕ) (db : Shelf)
    → d.batch_id ≡ some batch
    → pos d.quantity ≤ℤ check_available_stock d.product_id d.store_id (some batch) db
    → ¬ (
        pos (reserved d.store_id d.product_id db.reservations + d.quantity)
        ≤ℤ stock d.store_id d.product_id db.batches)
    → let (r, db') = create_reservation d id now db in
      (is_ok r ≡ true) × (¬ IsCovered d.store_id d.product_id db')
unfolding create_reservation
create_reservation-oversells d batch id now db e enough short =
    let fits : ltb_ℤ (check_available_stock d.product_id d.store_id d.batch_id db) (pos d.quantity)
        ≡ false =
      rw e (ground arith) in
    let sums =
      sum-append (holds_product d.store_id d.product_id) db.reservations (new_row d id now) in
    rw fits
      (refl, λ c. short (omega (arith, rw (==_refl d.product_id, ==_refl d.store_id) at sums, c)))
