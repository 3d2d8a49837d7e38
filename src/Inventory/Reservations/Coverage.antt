-- ===== src/Inventory/Reservations/Coverage.antt =====
-- No more is reserved than is in stock, for reservations of a product.
use modern_trade_website.Prelude.{
  ℕ, ◌+◌, ◌≤◌, ◌≡◌, ◌≢◌, refl, Bool, true, false, List, [], ◌∷◌, ◌++◌, arith, none, some, ◌&&◌,
  if◌then◌else◌, ◌==◌, Bool-cases, inl, inr,
}
use modern_trade_website.Prelude.Int.{ℤ, pos, ◌-ℤ◌, ◌≤ℤ◌, ltb_ℤ}
use modern_trade_website.Prelude.Table.{update, sum}
use modern_trade_website.Inventory.Rows.{
  Reservation, ReservationStatus, active, consumed, cancelled, expired, Shelf, holds_product, stock,
  reserved,
}
use modern_trade_website.Inventory.Reservations.{
  ReservationData, new_row, is_open, of_cart, is_overdue, check_available_stock, create_reservation,
  check_reservation, insert_reservation, consume_reservation, cancel_reservation,
  cancel_cart_reservations, transfer_reservations_to_order, expire_reservations,
}

-- What is reserved of a product in a store is in stock there.
abbrev pub IsCovered : ℕ → ℕ → Shelf → Type 0
IsCovered s p db = pos (reserved s p db.reservations) ≤ℤ stock s p db.batches

-- A call of the service. `reserve` is a reservation of a product: no batch is named.
pub data Step : Shelf → Shelf → Type 0 where
  reserve :
      (d : ReservationData) (id now : ℕ) (db : Shelf)
      → d.batch_id ≡ none
      → Step db (create_reservation d id now db).1
  consume : (id : ℕ) (db : Shelf) → Step db (consume_reservation id db).1
  cancel : (id : ℕ) (db : Shelf) → Step db (cancel_reservation id db).1
  cancel_cart : (cart : ℕ) (db : Shelf) → Step db (cancel_cart_reservations cart db).1
  transfer : (cart order : ℕ) (db : Shelf) → Step db (transfer_reservations_to_order cart order db)
  expire : (now : ℕ) (db : Shelf) → Step db (expire_reservations now db).1

pub data Reach (db : Shelf) : Shelf → Type 0 where
  here : Reach db db
  next : {u v : Shelf} → Reach db u → Step u v → Reach db v

-- A write that opens no reservation reserves no more.
sum-update-le :
    (p q : Reservation → Bool) (f : Reservation → Reservation) (t : List Reservation)
    → ((r : Reservation) → p (f r) ≡ true → p r ≡ true)
    → ((r : Reservation) → (f r).quantity ≡ r.quantity)
    → sum p (λ r. r.quantity) (update q f t) ≤ sum p (λ r. r.quantity) t
unfolding sum update
sum-update-le p q f [] h k = omega arith
sum-update-le p q f (r ∷ rs) h k = ground (arith, sum-update-le p q f rs h k, h r, k r)

pub sum-append :
    (p : Reservation → Bool) (xs : List Reservation) (r : Reservation)
    → sum p (λ x. x.quantity) (xs ++ r ∷ [])
      ≡ sum p (λ x. x.quantity) xs + (if p r then r.quantity else 0)
unfolding sum
sum-append p [] r = omega arith
sum-append p (x ∷ xs) r = omega (arith, sum-append p xs r)

closing :
    (s p : ℕ) (st : ReservationStatus) (q : Reservation → Bool) (t : List Reservation)
    → st ≢ active
    → reserved s p (update q (λ r. record r { status = st }) t) ≤ reserved s p t
closing s p st q t n =
    sum-update-le (holds_product s p) q (λ r. record r { status = st }) t (λ r e. ground arith)
      (λ r. refl)

enough : (a : ℤ) (r q : ℕ) → ltb_ℤ (a -ℤ pos r) (pos q) ≡ false → pos (r + q) ≤ℤ a
unfolding ◌-ℤ◌
enough a r q e = ground arith

same_product :
    (d : ReservationData) (s p : ℕ)
    → (d.product_id == p && d.store_id == s) ≡ true
    → (p ≡ d.product_id) × (s ≡ d.store_id)
same_product d s p e = ground arith

grown :
    (s p : ℕ) (d : ReservationData) (id now : ℕ) (db : Shelf)
    → pos (reserved d.store_id d.product_id db.reservations + d.quantity)
      ≤ℤ stock d.store_id d.product_id db.batches
    → IsCovered s p db
    → IsCovered s p (record db { reservations = db.reservations ++ new_row d id now ∷ [] })
grown s p d id now db h c =
    let sums = sum-append (holds_product s p) db.reservations (new_row d id now) in
    elim (Bool-cases (d.product_id == p && d.store_id == s)) [
      | inl k ↦
          let (product, store) = same_product d s p k in
          omega (arith, rw k at sums, rw (← product, ← store) at h)
      | inr k ↦ omega (arith, rw k at sums, c)
    ]

create-IsCovered :
    (s p : ℕ) (d : ReservationData) (id now : ℕ) (db : Shelf)
    → d.batch_id ≡ none
    → IsCovered s p db
    → IsCovered s p (create_reservation d id now db).1
unfolding create_reservation check_reservation insert_reservation check_available_stock
create-IsCovered s p d id now db none_named c =
    let available = check_available_stock d.product_id d.store_id d.batch_id db in
    let same : available
        ≡ stock d.store_id d.product_id db.batches
          -ℤ pos (reserved d.store_id d.product_id db.reservations) =
      rw none_named refl in
    elim (Bool-cases (ltb_ℤ available (pos d.quantity))) [
      | inl e ↦ rw e c
      | inr e ↦ rw e (grown s p d id now db (enough _ _ _ (rw same at e)) c)
    ]

pub Step-IsCovered : {db db' : Shelf} (s p : ℕ) → Step db db' → IsCovered s p db → IsCovered s p db'
unfolding consume_reservation cancel_reservation cancel_cart_reservations
    transfer_reservations_to_order expire_reservations
Step-IsCovered s p (reserve d id now db n) c = create-IsCovered s p d id now db n c
Step-IsCovered s p (consume id db) c =
    omega (arith, closing s p consumed (is_open id) db.reservations (λ e. cc))
Step-IsCovered s p (cancel id db) c =
    omega (arith, closing s p cancelled (is_open id) db.reservations (λ e. cc))
Step-IsCovered s p (cancel_cart cart db) c =
    omega (arith, closing s p cancelled (of_cart cart) db.reservations (λ e. cc))
Step-IsCovered s p (transfer cart order db) c = omega (
  arith,
  sum-update-le (holds_product s p) (of_cart cart)
      (λ r. record r { order_id = some order; cart_id = none }) db.reservations (λ r e. e)
      (λ r. refl),
)
Step-IsCovered s p (expire now db) c =
    omega (arith, closing s p expired (is_overdue now) db.reservations (λ e. cc))

-- Where all that is reserved of a product in a store is in stock there, it is after any sequence of calls
-- of the service too, as long as the calls follow one another, so that none comes between the check and
-- the INSERT of a createReservation, and the reservations that are created name no batch.
pub Reach-IsCovered :
    {db db' : Shelf} (s p : ℕ) → Reach db db' → IsCovered s p db → IsCovered s p db'
Reach-IsCovered s p here c = c
Reach-IsCovered s p (next r st) c = Step-IsCovered s p st (Reach-IsCovered s p r c)
