-- ===== src/Orders/Lifecycle.antt =====
-- OrderLifecycleService of backend/src/services/orderLifecycleService.ts over the tables of the web
-- orders. Its statements run outside a transaction: what a call wrote before it threw stays.
pub mod Refund
use modern_trade_website.Orders.Rows.{
  order_state, refunded, WebOrder, out_for_delivery, OrderEvent, picking, pending_payment, includes,
  packed, delivered, confirmed, same_status, EventType, return_requested, OrderStatus, cancelled,
  Db, returned, draft, details, status_change, shipped,
}
use modern_trade_website.Orders.Web.{find_order}
use modern_trade_website.Inventory.Rows.{Shelf, Reservation}
use modern_trade_website.Prelude.{
  ◌∷◌, none, ltb, some, ℕ, ◌==◌, Option, ◌++◌, List, [], if◌then◌else◌,
}
use modern_trade_website.Prelude.Outcome.{return, err, ◌>>◌, M, continue, modify, Result, ok, ◌>>=◌}
use modern_trade_website.Inventory.Reservations.{
  ReservationError, consume_reservation, cancel_reservation, cancel_cart_reservations,
}
use modern_trade_website.Prelude.Table.{update}
use modern_trade_website.Payments.Rows.{total_amount}

pub data LifecycleError : Type 0 where
  order_not_found invalid_transition not_cancellable refund_exceeds_total reservation_closed :
      LifecycleError

-- validTransitions
abbrev pub valid_transitions : OrderStatus → List OrderStatus
valid_transitions draft = pending_payment ∷ cancelled ∷ []
valid_transitions pending_payment = confirmed ∷ cancelled ∷ []
valid_transitions confirmed = picking ∷ cancelled ∷ []
valid_transitions picking = packed ∷ cancelled ∷ []
valid_transitions packed = out_for_delivery ∷ cancelled ∷ []
valid_transitions out_for_delivery = delivered ∷ cancelled ∷ []
valid_transitions delivered = return_requested ∷ []
valid_transitions return_requested = returned ∷ []
valid_transitions returned = refunded ∷ []
valid_transitions _ = []

-- getEventTypeForTransition
abbrev pub event_type_for : OrderStatus → OrderStatus → EventType
event_type_for draft pending_payment = EventType.created
event_type_for pending_payment confirmed = EventType.confirmed
event_type_for confirmed picking = EventType.picking
event_type_for picking packed = EventType.packed
event_type_for packed out_for_delivery = EventType.shipped
event_type_for out_for_delivery delivered = EventType.delivered
event_type_for delivered return_requested = EventType.return_requested
event_type_for return_requested returned = EventType.returned
event_type_for returned refunded = EventType.refunded
event_type_for _ _ = EventType.status_change

abbrev pub moved_to : OrderStatus → WebOrder → WebOrder
moved_to status o = record o { status = status }

abbrev pub set_order : ℕ → (WebOrder → WebOrder) → Db → Db
set_order id f db = record db { orders = update (λ o. o.id == id) f db.orders }

abbrev lifecycle_event : ℕ → OrderStatus → OrderStatus → Option ℕ → OrderEvent
lifecycle_event id from to by = record {
  order_id = id;
  event_type = event_type_for from to;
  from_status = order_state from;
  to_status = order_state to;
  metadata = details;
  created_by = by;
}

abbrev closed_as :
    Result ReservationError Reservation × Shelf → Db → Result LifecycleError (Unit {0}) × Db
closed_as (ok r, shelf) db = (ok tt, record db { shelf = shelf })
closed_as (err e, shelf) db = (err reservation_closed, record db { shelf = shelf })

abbrev consume_id : Option ℕ → M Db LifecycleError (Unit {0})
consume_id none db = (ok tt, db)
consume_id (some r) db = closed_as (consume_reservation r db.shelf) db

abbrev consume_of : Option WebOrder → M Db LifecycleError (Unit {0})
consume_of none db = (ok tt, db)
consume_of (some o) db = consume_id o.reservation_id db

-- handleTransitionSideEffects
unfoldable pub handle_transition_side_effects : ℕ → OrderStatus → M Db LifecycleError (Unit {0})
handle_transition_side_effects id to db =
    if same_status to confirmed then consume_of (find_order id db) db else (ok tt, db)

abbrev pub status_written : ℕ → OrderStatus → OrderStatus → Option ℕ → Db → Db
status_written id from to by db = record db {
  orders = update (λ o. o.id == id) (moved_to to) db.orders;
  events = db.events ++ lifecycle_event id from to by ∷ [];
}

abbrev transition_found :
    ℕ → OrderStatus → Option ℕ → Option WebOrder → M Db LifecycleError WebOrder
transition_found id to by none db = (err order_not_found, db)
transition_found id to by (some o) db =
    let next = handle_transition_side_effects id to (status_written id o.status to by db) in
    if includes (valid_transitions o.status) to
    then continue next (λ _. return (moved_to to o))
    else (err invalid_transition, db)

-- transitionOrderStatus
unfoldable pub transition_order_status : ℕ → OrderStatus → Option ℕ → M Db LifecycleError WebOrder
transition_order_status id to by db = transition_found id to by (find_order id db) db

abbrev release : Option ℕ → M Db LifecycleError (Unit {0})
release none db = (ok tt, db)
release (some r) db = closed_as (cancel_reservation r db.shelf) db

abbrev release_cart : Option ℕ → Db → Db
release_cart none db = db
release_cart (some cart) db = record db { shelf = (cancel_cart_reservations cart db.shelf).1 }

abbrev pub cancel_details : Option ℕ → ℕ → WebOrder → WebOrder
cancel_details by now o = record o { cancelled_at = some now; cancelled_by = by }

abbrev cancel_found : ℕ → Option ℕ → ℕ → Option WebOrder → M Db LifecycleError WebOrder
cancel_found id by now none db = (err order_not_found, db)
cancel_found id by now (some o) db =
    let cancel : M Db LifecycleError WebOrder =
      transition_order_status id cancelled by >>= (λ result.
        modify (set_order id (cancel_details by now))
        >> release o.reservation_id
        >> modify (release_cart o.cart_id)
        >> return result) in
    if includes (draft ∷ pending_payment ∷ confirmed ∷ picking ∷ packed ∷ []) o.status
    then cancel db
    else (err not_cancellable, db)

-- cancelOrder
unfoldable pub cancel_order : ℕ → Option ℕ → ℕ → M Db LifecycleError WebOrder
cancel_order id by now db = cancel_found id by now (find_order id db) db

-- requestReturn
unfoldable pub request_return : ℕ → Option ℕ → ℕ → M Db LifecycleError WebOrder
request_return id by now = transition_order_status id return_requested by >>= (λ result.
    modify (set_order id (λ o. record o { returned_at = some now })) >> return result)

-- options.refund_amount || totalAmount
abbrev pub amount_or_total : Option ℕ → ℕ → ℕ
amount_or_total none total = total
amount_or_total (some a) total = if a == 0 then total else a

abbrev pub refund_details : ℕ → ℕ → WebOrder → WebOrder
refund_details amount now o = record o { refund_amount = some amount; refunded_at = some now }

abbrev refund_found : ℕ → Option ℕ → Option ℕ → ℕ → Option WebOrder → M Db LifecycleError WebOrder
refund_found id amount by now none db = (err order_not_found, db)
refund_found id amount by now (some o) db =
    let refund = amount_or_total amount o.total_amount in
    let pay_back : M Db LifecycleError WebOrder =
      transition_order_status id refunded by
      >>= (λ result. modify (set_order id (refund_details refund now)) >> return result) in
    if ltb o.total_amount refund then (err refund_exceeds_total, db) else pay_back db

-- processRefund
unfoldable pub process_refund : ℕ → Option ℕ → Option ℕ → ℕ → M Db LifecycleError WebOrder
process_refund id amount by now db = refund_found id amount by now (find_order id db) db
