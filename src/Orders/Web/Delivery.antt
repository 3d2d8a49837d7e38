-- ===== src/Orders/Web/Delivery.antt =====
-- What a delivery does to the stock, the reservations and the cash.
use modern_trade_website.Orders.Web.{
  deliver_items, delivery_of, OrderError, write_transition, update_web_order_status,
  update_reservations, of_order, find_order, issue_for,
}
use modern_trade_website.Prelude.{
  ℕ, ltb, ◌≡◌, false, List, arith, ◌∷◌, Bool-cases, ◌&&◌, inr, ◌==◌, inl, if◌then◌else◌, [], ◌≤◌,
  some, some_injective, refl, ◌+◌, Bool, sym, ◌∙◌, ap,
}
use modern_trade_website.Prelude.Table.{sum, update, select}
use modern_trade_website.Orders.Rows.{WebOrder, Db, delivered}
use modern_trade_website.Inventory.Issue.{Item, locked_batches, deliver_rows, issue_rows, items_of}
use modern_trade_website.Inventory.Rows.{
  Shelf, IsWellFormed, AllNonneg, moved, Reservation, stock, consumed, holds_product, reserved,
}
use modern_trade_website.Prelude.Outcome.{ok, Result}
use modern_trade_website.Inventory.Issue.Product.{
  Issued, demand, Issued-none, deliver_locked, issue_locked, Issued-then,
}
use modern_trade_website.Prelude.Table.Writes.{select-update_none}
use modern_trade_website.Prelude.Table.Find.{find-key}
use modern_trade_website.Inventory.Reservations.{set_status}
use modern_trade_website.Inventory.Reservations.Coverage.{IsCovered}
use modern_trade_website.Prelude.Int.{◌-ℤ◌, parts_of_eq, int_laws, pos}
use modern_trade_website.Orders.Web.Success.{success, Succeeded}

none_left : (n : ℕ) → ltb 0 n ≡ false → n ≡ 0
none_left n h = ground arith

deliver_items-Issued :
    (o : WebOrder) (actor : ℕ) (is : List Item) (db : Shelf)
    → IsWellFormed db
    → (deliver_items o actor is db).0 ≡ ok tt
    → Issued (demand o.store_id is) db (deliver_items o actor is db).1
unfolding deliver_items sum
deliver_items-Issued o actor [] db w h = Issued-none db w
deliver_items-Issued o actor (i ∷ is) db w h =
    let ref = delivery_of o actor i in
    let batches = locked_batches o.store_id i.product_id db in
    let same = deliver_locked ref i.quantity db w in
    let after = (deliver_rows ref batches i.quantity db).0 in
    elim (Bool-cases (ltb 0 (deliver_rows ref batches i.quantity db).1)) [
      | inl e ↦ cc (rw e at h)
      | inr e ↦
          let done : (issue_rows ref batches i.quantity db).1 ≡ 0 = none_left _ (rw same at e) in
          let first = issue_locked ref i.quantity db w done in
          let first' : Issued
              (λ s p. if o.store_id == s && i.product_id == p then i.quantity else 0) db after =
            rw same first in
          let later = deliver_items-Issued o actor is after first'.well_formed (rw e at h) in
          rw e (Issued-then _ _ db after (deliver_items o actor is after).1 first' later)
    ]

-- The call of updateWebOrderStatus that delivers.
abbrev pub deliver : ℕ → ℕ → Bool → ℕ → Db → Result OrderError WebOrder × Db
deliver id actor received now db = update_web_order_status id delivered actor received now db

Issued-shelf :
    (o : WebOrder) (actor : ℕ) (db : Db)
    → IsWellFormed db.shelf
    → (issue_for o delivered actor db).0 ≡ ok tt
    → Issued
        (demand o.store_id (items_of o.id db.items))
        db.shelf
        (issue_for o delivered actor db).1.shelf
unfolding issue_for
Issued-shelf o actor db w h = deliver_items-Issued o actor (items_of o.id db.items) db.shelf w h

delivered_shelf :
    (id actor : ℕ) (received : Bool) (now : ℕ) (db : Db)
    → (s : Succeeded id delivered actor received now db)
    → let after = (issue_for s.before delivered actor db).1.shelf in
      let db' = (deliver id actor received now db).1 in
      (db'.shelf.batches ≡ after.batches)
      × (db'.shelf.movements ≡ after.movements)
      × (db'.shelf.reservations ≡ update (of_order id) (set_status consumed) after.reservations)
unfolding write_transition update_reservations
delivered_shelf id actor received now db s =
    let own = find-key (λ (x : WebOrder). x.id) id db.orders s.row in
    rw (s.answer, own) (refl, refl, refl)

-- On a stock table with distinct ids and no negative quantity, a successful delivery lowers the
-- stock of every product in every store by exactly what the order's items ask of it, in the order's
-- store. What it takes from the stock it writes to the movements, and it keeps every batch at or
-- above 0.
pub delivered-stock :
    (id actor : ℕ) (received : Bool) (now : ℕ) (db : Db) (b : WebOrder) (s p : ℕ)
    → IsWellFormed db.shelf
    → (deliver id actor received now db).0 ≡ ok b
    → let db' = (deliver id actor received now db).1 in
      (o : WebOrder) × (find_order id db ≡ some o)
      × (stock s p db'.shelf.batches
          ≡ stock s p db.shelf.batches -ℤ pos (demand o.store_id (items_of o.id db.items) s p))
      × (stock s p db'.shelf.batches -ℤ moved s p db'.shelf.movements
          ≡ stock s p db.shelf.batches -ℤ moved s p db.shelf.movements)
      × AllNonneg db'.shelf.batches
delivered-stock id actor received now db b s p w h =
    let done = success id delivered actor received now db b h in
    let (batches, movements, reservations) = delivered_shelf id actor received now db done in
    let issued = Issued-shelf done.before actor db w done.issued in
    (
      done.before,
      done.row,
      rw batches (issued.stock_less s p),
      rw (batches, movements) (issued.written s p),
      rw batches issued.well_formed.nonneg,
    )

closed_order : (id : ℕ) (r : Reservation) → of_order id (set_status consumed r) ≡ false
closed_order id r = ground arith

freed :
    (id s p : ℕ) (t : List Reservation)
    → reserved s p (update (of_order id) (set_status consumed) t)
        + sum (λ r. of_order id r && holds_product s p r) (λ r. r.quantity) t
      ≡ reserved s p t
unfolding sum update
freed id s p [] = refl
freed id s p (r ∷ rs) = ground (arith, freed id s p rs)

-- After a successful delivery, on a stock table with distinct ids and no negative quantity, the
-- order has no active reservation. For a product in a store: where all that is reserved was in
-- stock, and the order had reserved at least what its items ask, what is reserved after the delivery
-- is in stock.
pub delivered-IsCovered :
    (id actor : ℕ) (received : Bool) (now : ℕ) (db : Db) (b o : WebOrder) (s p : ℕ)
    → IsWellFormed db.shelf
    → find_order id db ≡ some o
    → demand o.store_id (items_of o.id db.items) s p
      ≤ sum (λ r. of_order id r && holds_product s p r) (λ r. r.quantity) db.shelf.reservations
    → IsCovered s p db.shelf
    → (deliver id actor received now db).0 ≡ ok b
    → let db' = (deliver id actor received now db).1 in
      (select (of_order id) db'.shelf.reservations ≡ []) × IsCovered s p db'.shelf
delivered-IsCovered id actor received now db b o s p w row enough covered h =
    let done = success id delivered actor received now db b h in
    let (batches, movements, reservations) = delivered_shelf id actor received now db done in
    let issued = Issued-shelf done.before actor db w done.issued in
    let mine : done.before ≡ o = some_injective (sym done.row ∙ row) in
    let left = parts_of_eq (issued.stock_less s p) in
    let wanted = ap (λ (x : WebOrder). demand x.store_id (items_of x.id db.items) s p) mine in
    let before = rw issued.reservations_same at reservations in
    (
      rw before (
          select-update_none (of_order id) (set_status consumed) db.shelf.reservations
            (λ r e. closed_order id r)),
      rw (batches, before)
          (omega (int_laws, left, wanted, freed id s p db.shelf.reservations, enough, covered)),
    )
