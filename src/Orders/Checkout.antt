-- ===== src/Orders/Checkout.antt =====
-- cancelCustomerOrder of backend/src/services/checkoutService.ts: a customer cancels an order.
pub mod Cancel
use modern_trade_website.Prelude.Outcome.{M, ok, err, transaction}
use modern_trade_website.Prelude.{
  Bool, ◌&&◌, ◌++◌, head?, none, some, Option, ◌==◌, ℕ, ◌=?◌, ◌∷◌, [], if◌then◌else◌,
}
use modern_trade_website.Orders.Rows.{
  includes, confirmed, WebOrder, OrderEvent, EventType, order_state, pending_payment, Db, cancelled,
  pending, no_metadata,
}
use modern_trade_website.Inventory.Rows.{ReservationStatus}
use modern_trade_website.Inventory.Reservations.{set_status}
use modern_trade_website.Prelude.Table.{update, select}
use modern_trade_website.Orders.Web.{of_order_or_cart}

pub data CheckoutError : Type 0 where
  cannot_be_cancelled : CheckoutError

-- WHERE id = $1 AND customer_id = $2
abbrev pub is_of_customer : ℕ → ℕ → WebOrder → Bool
is_of_customer id customer o = o.id == id && o.customer_id =? customer

abbrev pub cancelled_by_customer : ℕ → ℕ → WebOrder → WebOrder
cancelled_by_customer customer now o = record o {
  status = cancelled;
  cancelled_at = some now;
  cancelled_by = some customer;
}

abbrev cancellation : ℕ → ℕ → WebOrder → OrderEvent
cancellation id customer o = record {
  order_id = id;
  event_type = EventType.cancelled;
  from_status = order_state o.status;
  to_status = order_state cancelled;
  metadata = no_metadata;
  created_by = some customer;
}

abbrev cancel_row : ℕ → ℕ → ℕ → Option WebOrder → M Db CheckoutError WebOrder
cancel_row id customer now none db = (err cannot_be_cancelled, db)
cancel_row id customer now (some o) db =
    if includes (pending ∷ pending_payment ∷ confirmed ∷ []) o.status
    then (
      ok (cancelled_by_customer customer now o),
      record db {
        orders = update (λ x. x.id == id) (cancelled_by_customer customer now) db.orders;
        shelf = record db.shelf {
          reservations =
              update (of_order_or_cart id o.cart_id) (set_status ReservationStatus.cancelled)
                db.shelf.reservations;
        };
        events = db.events ++ cancellation id customer o ∷ [];
      },
    )
    else (err cannot_be_cancelled, db)

-- cancelCustomerOrder
unfoldable pub cancel_customer_order : ℕ → ℕ → ℕ → M Db CheckoutError WebOrder
cancel_customer_order id customer now =
    transaction
      (λ db. cancel_row id customer now (head? (select (is_of_customer id customer) db.orders)) db)
