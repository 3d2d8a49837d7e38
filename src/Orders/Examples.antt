-- ===== src/Orders/Examples.antt =====
-- One order of the shop: the calls on it at concrete tables.
use modern_trade_website.Prelude.{
  none, ◌∷◌, some, ◌≡◌, true, refl, ◌==◌, ◌≤◌, ◌&&◌, arith, not, All, ◌++◌, [], false,
}
use modern_trade_website.Inventory.Rows.{
  AllNonneg, Batch, holds_product, IsWellFormed, stock, moved, Reservation, active,
}
use mathlib.Core.List.{Memᴰ}
use modern_trade_website.Prelude.Int.{◌+ℤ◌, ◌-ℤ◌, pos}
use modern_trade_website.Orders.Rows.{
  paid, Db, PaymentStatus, cod, delivery, includes, Fulfillment, out_for_delivery, failed,
  delivered, in_progress, WebOrder, cancelled, refunded, pending_payment, returned, OrderEvent,
  order_state, pending, no_metadata, cod_received,
}
use modern_trade_website.Prelude.Outcome.{ok, is_ok}
use modern_trade_website.Orders.Web.{
  of_order_or_cart, updated_order, deliver_items, of_order, cancel_web_order, transition,
  write_transition, next_statuses, issue_for, update_web_order_status, update_reservations,
  find_order, check_transition,
}
use modern_trade_website.Orders.Web.Cash.{delivered-cash}
use modern_trade_website.Orders.Web.Delivery.{deliver, delivered-stock, delivered-IsCovered}
use modern_trade_website.Orders.Payments.Final.{paid-final, after_payments, PaymentCall}
use modern_trade_website.Orders.Web.Cancel.{cancel_web_order-releases}
use modern_trade_website.Prelude.Table.{select, update, sum, sum_ℤ, order_by, insert_by, count}
use modern_trade_website.Orders.Web.Course.{
  update_web_order_status-follows, transitions-bounded, transitions, answer, Call,
}
use modern_trade_website.Inventory.Issue.{issue_one, locked_batches, items_of, deliver_rows}
use modern_trade_website.Inventory.Reservations.Coverage.{IsCovered}
use modern_trade_website.Inventory.Issue.Product.{demand}
use modern_trade_website.Inventory.Fifo.{take_from}
use modern_trade_website.Orders.Lifecycle.{
  moved_to, process_refund, refund_details, transition_order_status, amount_or_total,
  handle_transition_side_effects,
}
use modern_trade_website.Orders.Lifecycle.Refund.{process_refund-once}
use modern_trade_website.Orders.Checkout.Cancel.{cancel_customer_order-as_web}
use modern_trade_website.Orders.Checkout.{cancel_customer_order}

abbrev rice : Batch
rice = record {
  id = 1;
  store_id = 1;
  product_id = 7;
  batch_id = 11;
  expiry_date = 20;
  quantity = pos 3;
  created_at = 1;
}

abbrev held_rice : Reservation
held_rice = record {
  reservation_id = 5;
  cart_id = none;
  order_id = some 21;
  product_id = 7;
  store_id = 1;
  batch_id = none;
  quantity = 2;
  reserved_at = 100;
  expires_at = 200;
  status = active;
}

abbrev on_the_way : WebOrder
on_the_way = record {
  id = 21;
  customer_id = some 3;
  store_id = 1;
  cart_id = some 9;
  reservation_id = none;
  status = out_for_delivery;
  payment_method = cod;
  payment_status = PaymentStatus.pending;
  payment_intent_id = none;
  delivery_type = delivery;
  subtotal = 0;
  shipping_amount = 0;
  total_amount = 45000;
  idempotency_key = none;
  idempotency_request_fingerprint = none;
  cancelled_at = none;
  cancelled_by = none;
  cod_collected_at = none;
  cod_collected_by = none;
  returned_at = none;
  refunded_at = none;
  refund_amount = none;
}

abbrev rider : Fulfillment
rider = record {
  id = 31;
  order_id = 21;
  status = in_progress;
  created_at = 150;
  started_at = some 160;
  dispatched_at = some 160;
  completed_at = none;
  delivered_at = none;
}

abbrev shop : Db
shop = record {
  orders = on_the_way ∷ [];
  items =
      record { owner_id = 21; product_id = 7; quantity = 2; unit_price = 22500; line_total = 45000 }
      ∷ [];
  events = [];
  fulfillments = rider ∷ [];
  collections = [];
  shelf = record { batches = rice ∷ []; reservations = held_rice ∷ []; movements = [] };
}

abbrev paid_shop : Db
paid_shop = record shop { orders = record on_the_way { payment_status = paid } ∷ [] }

shop-IsWellFormed : IsWellFormed shop.shelf
shop-IsWellFormed = record { unique = omega arith; nonneg = omega arith }

the_order : find_order 21 shop ≡ some on_the_way
unfolding select
the_order = refl

abbrev delivered_order : WebOrder
delivered_order = updated_order delivered 4 300 on_the_way

delivered_ok : (deliver 21 4 true 300 shop).0 ≡ ok delivered_order
unfolding update_web_order_status transition check_transition issue_for deliver_items locked_batches
    select order_by insert_by deliver_rows issue_one take_from update write_transition
    update_reservations ◌-ℤ◌
delivered_ok = refl

cancelled_ok : (cancel_web_order 21 4 300 shop).0 ≡ ok (updated_order cancelled 4 300 on_the_way)
unfolding cancel_web_order update_web_order_status transition check_transition issue_for select
    order_by insert_by write_transition update_reservations update
cancelled_ok = refl

abbrev deliver_call : Call
deliver_call = record { order_id = 21; status = delivered; actor = 4; received = true; now = 300 }

transitions-bounded_example : transitions 21 (deliver_call ∷ deliver_call ∷ []) shop ≤ 1
transitions-bounded_example =
    transitions-bounded 21 (deliver_call ∷ deliver_call ∷ []) shop on_the_way the_order

update_web_order_status-follows_example :
    let db' = (answer deliver_call shop).1 in
    (o : WebOrder) × (find_order 21 shop ≡ some o)
    × (includes (next_statuses o.status) delivered ≡ true)
    × (find_order 21 db' ≡ some delivered_order)
    × (delivered_order.status ≡ delivered)
    × (e : OrderEvent) × (db'.events ≡ shop.events ++ e ∷ [])
    × (e.order_id ≡ 21)
    × (e.from_status ≡ order_state o.status)
    × (e.to_status ≡ order_state delivered)
update_web_order_status-follows_example =
    update_web_order_status-follows deliver_call shop delivered_order delivered_ok

delivered-stock_example :
    let db' = (deliver 21 4 true 300 shop).1 in
    (o : WebOrder) × (find_order 21 shop ≡ some o)
    × (stock 1 7 db'.shelf.batches
        ≡ stock 1 7 shop.shelf.batches -ℤ pos (demand o.store_id (items_of o.id shop.items) 1 7))
    × (stock 1 7 db'.shelf.batches -ℤ moved 1 7 db'.shelf.movements
        ≡ stock 1 7 shop.shelf.batches -ℤ moved 1 7 shop.shelf.movements)
    × AllNonneg db'.shelf.batches
delivered-stock_example =
    delivered-stock 21 4 true 300 shop delivered_order 1 7 shop-IsWellFormed delivered_ok

reserved_enough :
    demand 1 (items_of 21 shop.items) 1 7
    ≤ sum (λ r. of_order 21 r && holds_product 1 7 r) (λ r. r.quantity) shop.shelf.reservations
unfolding sum order_by insert_by select
reserved_enough = omega arith

shop-IsCovered : IsCovered 1 7 shop.shelf
unfolding sum sum_ℤ ◌+ℤ◌
shop-IsCovered = omega arith

delivered-IsCovered_example :
    let db' = (deliver 21 4 true 300 shop).1 in
    (select (of_order 21) db'.shelf.reservations ≡ []) × IsCovered 1 7 db'.shelf
delivered-IsCovered_example =
    delivered-IsCovered 21 4 true 300 shop delivered_order on_the_way 1 7 shop-IsWellFormed
      the_order reserved_enough shop-IsCovered delivered_ok

none_collected : count (λ c. c.order_id == 21) shop.collections ≤ 1
unfolding count
none_collected = omega arith

delivered-cash_example :
    let db' = (deliver 21 4 true 300 shop).1 in
    (true ≡ true)
    × (delivered_order.payment_status ≡ paid)
    × (find_order 21 db' ≡ some delivered_order)
    × (count (λ c. c.order_id == 21) db'.collections ≡ 1)
delivered-cash_example =
    delivered-cash 21 4 true 300 shop delivered_order on_the_way the_order refl none_collected
      delivered_ok

cancel_web_order-releases_example :
    let db' = (cancel_web_order 21 4 300 shop).1 in
    (db'.shelf.batches ≡ shop.shelf.batches)
    × (db'.shelf.movements ≡ shop.shelf.movements)
    × (select (of_order_or_cart 21 (some 9)) db'.shelf.reservations ≡ [])
    × All
        (λ r. Memᴰ r db'.shelf.reservations)
        (select (λ r. not (of_order_or_cart 21 (some 9) r)) shop.shelf.reservations)
cancel_web_order-releases_example =
    cancel_web_order-releases 21 4 300 shop _ on_the_way the_order cancelled_ok

abbrev fail_payment : PaymentCall
fail_payment = record { order_id = 21; status = failed; actor = 4; intent = some 8 }

paid_row : find_order 21 paid_shop ≡ some (record on_the_way { payment_status = paid })
unfolding select
paid_row = refl

paid-final_example :
    find_order 21 (after_payments (fail_payment ∷ []) paid_shop)
    ≡ some (record on_the_way { payment_status = paid })
paid-final_example = paid-final 21 (fail_payment ∷ []) paid_shop _ paid_row refl

abbrev unpaid : WebOrder
unpaid = record on_the_way { status = pending_payment; reservation_id = some 5 }

abbrev unpaid_shop : Db
unpaid_shop = record shop { orders = unpaid ∷ [] }

unpaid_row : find_order 21 unpaid_shop ≡ some unpaid
unfolding select
unpaid_row = refl

abbrev sent_back : WebOrder
sent_back = record on_the_way { status = returned }

abbrev returned_shop : Db
returned_shop = record shop { orders = sent_back ∷ [] }

returned_row : find_order 21 returned_shop ≡ some sent_back
unfolding select
returned_row = refl

refunded_ok :
    (process_refund 21 (some 40000) none 500 returned_shop).0 ≡ ok (moved_to refunded sent_back)
unfolding process_refund transition_order_status handle_transition_side_effects select update
refunded_ok = refl

process_refund-once_example :
    let db' = (process_refund 21 (some 40000) none 500 returned_shop).1 in
    let refund = amount_or_total (some 40000) 45000 in
    (sent_back.status ≡ returned)
    × (refund ≤ 45000)
    × (find_order 21 db' ≡ some (refund_details refund 500 (moved_to refunded sent_back)))
    × (is_ok (process_refund 21 (some 100) none 600 db').0 ≡ false)
    × ((process_refund 21 (some 100) none 600 db').1 ≡ db')
process_refund-once_example =
    process_refund-once 21 (some 40000) none (some 100) none 500 600 returned_shop
      (moved_to refunded sent_back) sent_back returned_row refunded_ok

abbrev waiting_shop : Db
waiting_shop = record shop { orders = record on_the_way { status = pending } ∷ [] }

waiting_row : find_order 21 waiting_shop ≡ some (record on_the_way { status = pending })
unfolding select
waiting_row = refl

cancel_customer_order-as_web_example :
    (b : WebOrder) × (db' : Db) × (e : OrderEvent) × (cancel_customer_order 21 3 400 waiting_shop
      ≡ (
        ok b,
        record db' { events = waiting_shop.events ++ record e { metadata = no_metadata } ∷ [] },
      ))
    × (cancel_web_order 21 3 400 waiting_shop ≡ (
      ok b,
      record db' {
        events = waiting_shop.events ++ record e { metadata = cod_received false } ∷ [];
      },
    ))
cancel_customer_order-as_web_example =
    cancel_customer_order-as_web 21 3 400 waiting_shop (record on_the_way { status = pending })
      waiting_row refl refl
