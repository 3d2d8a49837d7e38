-- ===== src/Orders/Web/Cancel.antt =====
-- What a cancellation gives back.
use modern_trade_website.Prelude.Outcome.{ok}
use modern_trade_website.Prelude.{All, ◌≡◌, some, not, ℕ, false, ◌∙◌, some_injective, sym, [], refl}
use modern_trade_website.Orders.Web.{
  issue_for, of_order_or_cart, write_transition, update_reservations, cancel_web_order, find_order,
}
use mathlib.Core.List.{Memᴰ}
use modern_trade_website.Orders.Rows.{WebOrder, Db, cancelled}
use modern_trade_website.Prelude.Table.Find.{find-key}
use modern_trade_website.Prelude.Table.{select}
use modern_trade_website.Orders.Web.Success.{success}
use modern_trade_website.Prelude.Table.Writes.{select-update_none, update-keeps}
use modern_trade_website.Inventory.Rows.{ReservationStatus, Reservation}
use modern_trade_website.Inventory.Reservations.{set_status}

-- A successful cancelWebOrder touches no batch and no movement. Afterwards the order and its cart have
-- no active reservation, and every reservation that was not an active one of theirs is in the table
-- as it was.
pub cancel_web_order-releases :
    (id actor now : ℕ) (db : Db) (b o : WebOrder)
    → find_order id db ≡ some o
    → (cancel_web_order id actor now db).0 ≡ ok b
    → let db' = (cancel_web_order id actor now db).1 in
      (db'.shelf.batches ≡ db.shelf.batches)
      × (db'.shelf.movements ≡ db.shelf.movements)
      × (select (of_order_or_cart id o.cart_id) db'.shelf.reservations ≡ [])
      × All
          (λ r. Memᴰ r db'.shelf.reservations)
          (select (λ r. not (of_order_or_cart id o.cart_id r)) db.shelf.reservations)
unfolding cancel_web_order write_transition update_reservations issue_for
cancel_web_order-releases id actor now db b o row h =
    let done = success id cancelled actor false now db b h in
    let mine : done.before ≡ o = some_injective (sym done.row ∙ row) in
    let own = find-key (λ (x : WebOrder). x.id) id db.orders row in
    rw (done.answer, mine, own)
      (
        refl,
        refl,
        select-update_none (of_order_or_cart id o.cart_id) (set_status ReservationStatus.cancelled)
            db.shelf.reservations (λ r e. closed r),
        update-keeps (of_order_or_cart id o.cart_id) (set_status ReservationStatus.cancelled)
            db.shelf.reservations,
      )
  where
    closed :
        (r : Reservation)
        → of_order_or_cart id o.cart_id (set_status ReservationStatus.cancelled r) ≡ false
    closed r = refl
