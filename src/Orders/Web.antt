-- ===== src/Orders/Web.antt =====
-- updateWebOrderStatus and cancelWebOrder of backend/src/services/webOrderService.ts: a transaction
-- that is rolled back where it throws.
pub mod Success
pub mod Course
pub mod Delivery
pub mod Cash
pub mod Cancel
use modern_trade_website.Prelude.{
  ℕ, ◌+◌, Bool, true, false, Option, none, some, List, [], ◌∷◌, ◌++◌, ◌&&◌, ◌||◌, not, ◌==◌, ◌=?◌,
  ltb, leb, if◌then◌else◌, head?, is_empty, any,
}
use modern_trade_website.Prelude.Outcome.{
  Result, ok, err, M, ◌>>◌, ◌>>=◌, return, modify, guard, transaction,
}
use modern_trade_website.Prelude.Table.{select, update, order_by}
use modern_trade_website.Inventory.Rows.{
  Reservation, ReservationStatus, consumed, Shelf, is_active, cod_order,
}
use modern_trade_website.Inventory.Reservations.{set_status}
use modern_trade_website.Inventory.Issue.{Reference, Item, items_of, locked_batches, deliver_rows}
use modern_trade_website.Orders.Rows.{
  OrderStatus, pending, pending_payment, confirmed, picking, packed, out_for_delivery, delivered,
  cancelled, PaymentStatus, paid, failed, WebOrder, EventType, status_change, payment_status_change,
  order_state, payment_state, OrderEvent, in_progress, completed, Fulfillment, CashCollection, Db,
  same_status, includes, is_cod, is_delivery, assigned, refunded, other, cod_received,
}
use modern_trade_website.Payments.Rows.{total_amount}

pub data OrderError : Type 0 where
  order_not_found invalid_transition cod_receipt_required assignment_required no_items : OrderError
  insufficient_inventory : (product : ℕ) → OrderError

-- validStatusTransitions
abbrev pub next_statuses : OrderStatus → List OrderStatus
next_statuses pending = confirmed ∷ cancelled ∷ []
next_statuses pending_payment = confirmed ∷ cancelled ∷ []
next_statuses confirmed = picking ∷ cancelled ∷ []
next_statuses picking = packed ∷ cancelled ∷ []
next_statuses packed = out_for_delivery ∷ cancelled ∷ []
next_statuses out_for_delivery = delivered ∷ cancelled ∷ []
next_statuses _ = []

-- ORDER BY created_at DESC LIMIT 1 over the fulfillments that are not cancelled
abbrev pub current_fulfillment : ℕ → Db → Option Fulfillment
current_fulfillment id db =
    head? (order_by (λ f g. leb g.created_at f.created_at) (select (assigned id) db.fulfillments))

abbrev has_fulfillment : Option Fulfillment → Bool
has_fulfillment none = false
has_fulfillment (some f) = true

-- The guards before anything is written, in the order of the code.
unfoldable pub check_transition : WebOrder → OrderStatus → Bool → Db → Result OrderError (Unit {0})
check_transition o status received db =
    if not (includes (next_statuses o.status) status)
    then err invalid_transition
    else if same_status status delivered && (is_cod o.payment_method && not received)
    then err cod_receipt_required
    else if same_status status out_for_delivery
        && not (has_fulfillment (current_fulfillment o.id db))
    then err assignment_required
    else if same_status status delivered
        && (is_delivery o.delivery_type && not (has_fulfillment (current_fulfillment o.id db)))
    then err assignment_required
    else if same_status status delivered && is_empty (items_of o.id db.items)
    then err no_items
    else ok tt

abbrev pub delivery_of : WebOrder → ℕ → Item → Reference
delivery_of o actor i = record {
  store_id = o.store_id;
  product_id = i.product_id;
  reference_id = o.id;
  reference_type = cod_order;
  performed_by = actor;
}

-- The loop over the items: each is issued in full, or the call throws.
unfoldable pub deliver_items : WebOrder → ℕ → List Item → M Shelf OrderError (Unit {0})
deliver_items o actor [] db = (ok tt, db)
deliver_items o actor (i ∷ is) db =
    let (after, remaining) =
      deliver_rows (delivery_of o actor i) (locked_batches o.store_id i.product_id db) i.quantity
        db in
    let rest = deliver_items o actor is after in
    if ltb 0 remaining then (err (insufficient_inventory i.product_id), after) else rest

-- A step on the physical stock, as a step on the whole.
abbrev pub on_shelf : M Shelf OrderError (Unit {0}) → M Db OrderError (Unit {0})
on_shelf m db = let (r, s) = m db.shelf in (r, record db { shelf = s })

unfoldable pub issue_for : WebOrder → OrderStatus → ℕ → M Db OrderError (Unit {0})
issue_for o status actor db =
    if same_status status delivered
    then on_shelf (deliver_items o actor (items_of o.id db.items)) db
    else (ok tt, db)

-- The three UPDATEs of web_orders.
abbrev pub updated_order : OrderStatus → ℕ → ℕ → WebOrder → WebOrder
updated_order status actor now o =
    if same_status status cancelled
    then record o { status = status; cancelled_at = some now; cancelled_by = some actor }
    else if same_status status delivered && is_cod o.payment_method
    then record o {
      status = status;
      payment_status = paid;
      cod_collected_at = some now;
      cod_collected_by = some actor;
    }
    else record o { status = status }

abbrev coalesce : Option ℕ → ℕ → Option ℕ
coalesce none now = some now
coalesce (some t) now = some t

abbrev pub updated_fulfillment : OrderStatus → ℕ → Fulfillment → Fulfillment
updated_fulfillment status now f =
    if same_status status out_for_delivery
    then record f {
      status = in_progress;
      started_at = coalesce f.started_at now;
      dispatched_at = coalesce f.dispatched_at now;
    }
    else if same_status status delivered
    then record f {
      status = completed;
      completed_at = coalesce f.completed_at now;
      delivered_at = coalesce f.delivered_at now;
    }
    else f

abbrev id_of : Option Fulfillment → Option ℕ
id_of none = none
id_of (some f) = some f.id

-- INSERT INTO cod_cash_collections … ON CONFLICT (order_id) DO NOTHING
abbrev pub collect_cash : WebOrder → ℕ → Db → List CashCollection
collect_cash o actor db =
    if any (λ c. c.order_id == o.id) db.collections
    then db.collections
    else db.collections
      ++ record {
        order_id = o.id;
        store_id = o.store_id;
        fulfillment_id = id_of (current_fulfillment o.id db);
        collected_by = actor;
        amount = o.total_amount;
      }
        ∷ []

-- order_id = $1 AND status = 'ACTIVE'
abbrev pub of_order : ℕ → Reservation → Bool
of_order id r = is_active r.status && r.order_id =? id

abbrev pub same_cart : Option ℕ → Option ℕ → Bool
same_cart (some a) (some b) = a == b
same_cart _ _ = false

-- status = 'ACTIVE' AND (order_id = $1 OR cart_id = $2)
abbrev pub of_order_or_cart : ℕ → Option ℕ → Reservation → Bool
of_order_or_cart id cart r = is_active r.status && (r.order_id =? id || same_cart r.cart_id cart)

-- expires_at = GREATEST(expires_at, NOW() + INTERVAL '24 hours')
abbrev pub extended : ℕ → Reservation → Reservation
extended now r = record r {
  expires_at = if ltb r.expires_at (now + 86400000) then now + 86400000 else r.expires_at;
}

unfoldable pub update_reservations :
    WebOrder → OrderStatus → ℕ → List Reservation → List Reservation
update_reservations o status now t =
    if includes (confirmed ∷ picking ∷ packed ∷ out_for_delivery ∷ []) status
    then update (of_order o.id) (extended now) t
    else if same_status status delivered
    then update (of_order o.id) (set_status consumed) t
    else if same_status status cancelled
    then update (of_order_or_cart o.id o.cart_id) (set_status ReservationStatus.cancelled) t
    else t

abbrev pub transition_event : WebOrder → OrderStatus → ℕ → Bool → OrderEvent
transition_event o status actor received = record {
  order_id = o.id;
  event_type = if same_status status cancelled then EventType.cancelled else status_change;
  from_status = order_state o.status;
  to_status = order_state status;
  metadata = cod_received (if same_status status delivered then received else false);
  created_by = some actor;
}

-- What is written once the guards and the issue have passed.
unfoldable pub write_transition : WebOrder → OrderStatus → ℕ → Bool → ℕ → Db → Db
write_transition o status actor received now db =
    let fulfilled = record db {
      fulfillments =
          if is_delivery o.delivery_type && includes (out_for_delivery ∷ delivered ∷ []) status
          then update (assigned o.id) (updated_fulfillment status now) db.fulfillments
          else db.fulfillments;
    } in
    record fulfilled {
      orders = update (λ x. x.id == o.id) (updated_order status actor now) db.orders;
      collections =
          if same_status status delivered && is_cod o.payment_method
          then collect_cash o actor fulfilled
          else db.collections;
      shelf = record db.shelf {
        reservations = update_reservations o status now db.shelf.reservations;
      };
      events = db.events ++ transition_event o status actor received ∷ [];
    }

abbrev pub found : Option WebOrder → Result OrderError WebOrder
found none = err order_not_found
found (some o) = ok o

-- SELECT * FROM web_orders WHERE id = $1 FOR UPDATE
abbrev pub find_order : ℕ → Db → Option WebOrder
find_order id db = head? (select (λ o. o.id == id) db.orders)

-- The call from the locked row on.
unfoldable pub transition : OrderStatus → ℕ → Bool → ℕ → WebOrder → M Db OrderError WebOrder
transition status actor received now o =
    (λ db. (check_transition o status received db, db))
    >> issue_for o status actor
    >> modify (write_transition o status actor received now)
    >> return (updated_order status actor now o)

-- updateWebOrderStatus
unfoldable pub update_web_order_status : ℕ → OrderStatus → ℕ → Bool → ℕ → M Db OrderError WebOrder
update_web_order_status id status actor received now =
    transaction ((λ db. (found (find_order id db), db)) >>= transition status actor received now)

-- cancelWebOrder
unfoldable pub cancel_web_order : ℕ → ℕ → ℕ → M Db OrderError WebOrder
cancel_web_order id actor now = update_web_order_status id cancelled actor false now
