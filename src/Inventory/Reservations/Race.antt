-- ===== src/Inventory/Reservations/Race.antt =====
-- Calls of createReservation at the same time.
use modern_trade_website.Prelude.{ℕ, true, false, ◌+◌, ◌≡◌, refl, ◌∷◌, ◌++◌, [], none, arith}
use modern_trade_website.Prelude.Int.{ℤ, pos, ◌-ℤ◌, ◌≤ℤ◌, ltb_ℤ}
use modern_trade_website.Prelude.Outcome.{ok}
use modern_trade_website.Inventory.Rows.{Shelf, holds_product, stock, reserved}
use modern_trade_website.Inventory.Reservations.{
  ReservationData, new_row, check_reservation, insert_reservation, check_available_stock,
}
use modern_trade_website.Inventory.Reservations.Coverage.{IsCovered, sum-append}

fits : (a : ℤ) (r q : ℕ) → pos (r + q) ≤ℤ a → ltb_ℤ (a -ℤ pos r) (pos q) ≡ false
unfolding ◌-ℤ◌
fits a r q e = ground (arith, e)

held_row :
    (store product : ℕ) (e : ReservationData) (id now : ℕ)
    → e.product_id ≡ product
    → e.store_id ≡ store
    → holds_product store product (new_row e id now) ≡ true
held_row store product e id now p s = ground (arith, p, s)

-- Two calls of createReservation for one product in one store, neither naming a batch, oversell where
-- both make their check before either makes its INSERT: both checks pass where the stock has room for each
-- alone, and after both INSERTs more is reserved of the product than is in stock where it has no room for
-- both.
pub create_reservation-race :
    (d e : ReservationData) (id now id' now' : ℕ) (db : Shelf)
    → d.batch_id ≡ none
    → e.batch_id ≡ none
    → e.product_id ≡ d.product_id
    → e.store_id ≡ d.store_id
    → pos (reserved d.store_id d.product_id db.reservations + d.quantity)
      ≤ℤ stock d.store_id d.product_id db.batches
    → pos (reserved d.store_id d.product_id db.reservations + e.quantity)
      ≤ℤ stock d.store_id d.product_id db.batches
    → ¬ (
        pos (reserved d.store_id d.product_id db.reservations + (d.quantity + e.quantity))
        ≤ℤ stock d.store_id d.product_id db.batches)
    → (check_reservation d db ≡ ok tt)
      × (check_reservation e db ≡ ok tt)
      × (¬ IsCovered d.store_id d.product_id
          (insert_reservation e id' now' (insert_reservation d id now db)))
unfolding check_reservation insert_reservation check_available_stock
create_reservation-race d e id now id' now' db n n' product store room room' both =
    let first =
      sum-append (holds_product d.store_id d.product_id) db.reservations (new_row d id now) in
    let second =
      sum-append (holds_product d.store_id d.product_id) (db.reservations ++ new_row d id now ∷ [])
        (new_row e id' now') in
    (
      rw (n, fits _ _ _ room) refl,
      rw (n', product, store, fits _ _ _ room') refl,
      λ c.
          let mine = rw (held_row d.store_id d.product_id d id now refl refl) at first in
          let other = rw (held_row d.store_id d.product_id e id' now' product store) at second in
          both (omega (arith, mine, other, c)),
    )
