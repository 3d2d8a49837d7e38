-- ===== src/Carts/Checkout.antt =====
-- createCodOrder of backend/src/services/checkoutService.ts: a cart becomes an order that is paid on
-- delivery. It is a transaction under an advisory lock of its key; the unique violation that its catch
-- block answers is of a concurrent call, so that no call here meets it.
pub mod Asked
pub mod Covered
pub mod Once
use modern_trade_website.Prelude.{
  Option, none, ◌=?◌, false, ◌∷◌, ◌==◌, ℕ, List, ◌&&◌, not, some, ◌||◌, ◌+◌, is_empty, head?, ◌++◌,
  Bool, is_some, leb, [], if◌then◌else◌,
}
use modern_trade_website.Orders.Rows.{
  WebOrder, EventType, PaymentStatus, pending_payment, cod, order_state, no_state, OrderEvent,
  details,
}
use modern_trade_website.Carts.Rows.{CartItem, Shop, converted, is_active_cart, Cart}
use modern_trade_website.Carts.Validation.{
  canonical_items, subtotal_of, is_blocked, is_changed, RequestedCartItem, CanonicalItem,
  authoritative_price,
}
use modern_trade_website.Prelude.Outcome.{
  return, ok, ◌>>◌, Result, guard, M, modify, err, ◌>>=◌, transaction,
}
use modern_trade_website.Prelude.Table.{order_by, select, update}
use modern_trade_website.Inventory.Rows.{Reservation, ReservationStatus}
use modern_trade_website.Inventory.Issue.{Item}
use modern_trade_website.Carts.Places.{
  CodInput, open_store, idempotency_conflict, place_of, Place, shipping_of, is_accepting,
  cart_unavailable, cart_empty, item_refused, CheckoutError,
}
use modern_trade_website.Payments.Rows.{total_amount}

abbrev lift : {A : Type 0} → Result CheckoutError A → M Shop CheckoutError A
lift r s = (r, s)

abbrev need : {A : Type 0} → Option A → CheckoutError → M Shop CheckoutError A
need none e s = (err e, s)
need (some a) e s = (ok a, s)

-- The rows of the cart by product.
abbrev pub rows_of_cart : ℕ → Shop → List CartItem
rows_of_cart cart s =
    order_by (λ a b. leb a.product_id b.product_id) (select (λ i. i.cart_id == cart) s.cart_items)

abbrev pairs : List CartItem → List (ℕ × ℕ)
pairs [] = []
pairs (i ∷ is) = (i.product_id, i.quantity) ∷ pairs is

-- SELECT … FROM cart_items JOIN shopping_carts … AND sc.customer_id = $2
abbrev pub fingerprint_rows : CodInput → Shop → List (ℕ × ℕ)
fingerprint_rows input s =
    if is_some
      (head? (select (λ c. c.id == input.cart_id && c.customer_id == input.customer_id) s.carts))
    then pairs (rows_of_cart input.cart_id s)
    else []

-- SELECT * FROM web_orders WHERE idempotency_key = $1 AND customer_id = $2
abbrev pub is_order_of_key : ℕ → ℕ → WebOrder → Bool
is_order_of_key key customer o = o.idempotency_key =? key && o.customer_id =? customer

abbrev pub order_of_key : ℕ → ℕ → Shop → Option WebOrder
order_of_key key customer s = head? (select (is_order_of_key key customer) s.orders.orders)

abbrev pub is_cart_of : CodInput → ℕ → Cart → Bool
is_cart_of input store c =
    c.id == input.cart_id
    && (c.customer_id == input.customer_id && (c.store_id == store && is_active_cart c.status))

abbrev pub requests : List CartItem → List RequestedCartItem
requests [] = []
requests (i ∷ is) =
    record { product_id = i.product_id; quantity = i.quantity; client_unit_price = none }
    ∷ requests is

-- The map over the items: the first that is not VALID ends it.
unfoldable pub priced_items : List CanonicalItem → Result CheckoutError (Unit {0})
priced_items [] = ok tt
priced_items (i ∷ is) =
    let rest = priced_items is in
    if is_blocked i.status || is_changed i.status then err (item_refused i.issues) else rest

abbrev pub new_order : CodInput → ℕ → ℕ → ℕ → ℕ → ℕ → WebOrder
new_order input id print store subtotal shipping = record {
  id = id;
  customer_id = some input.customer_id;
  store_id = store;
  cart_id = some input.cart_id;
  reservation_id = none;
  status = pending_payment;
  payment_method = cod;
  payment_status = PaymentStatus.pending;
  payment_intent_id = none;
  delivery_type = input.delivery_type;
  subtotal = subtotal;
  shipping_amount = shipping;
  total_amount = subtotal + shipping;
  idempotency_key = some input.idempotency_key;
  idempotency_request_fingerprint = some print;
  cancelled_at = none;
  cancelled_by = none;
  cod_collected_at = none;
  cod_collected_by = none;
  returned_at = none;
  refunded_at = none;
  refund_amount = none;
}

abbrev pub order_items : ℕ → List CanonicalItem → List Item
order_items order [] = []
order_items order (i ∷ is) =
    record {
      owner_id = order;
      product_id = i.product_id;
      quantity = i.quantity;
      unit_price = i.authoritative_price;
      line_total = i.line_total;
    }
    ∷ order_items order is

-- One reservation for each item; their ids count up from `serial`.
abbrev pub reservation_rows : ℕ → ℕ → ℕ → ℕ → List CanonicalItem → List Reservation
reservation_rows order store now serial [] = []
reservation_rows order store now serial (i ∷ is) =
    record {
      reservation_id = serial;
      cart_id = none;
      order_id = some order;
      product_id = i.product_id;
      store_id = store;
      batch_id = none;
      quantity = i.quantity;
      reserved_at = now;
      expires_at = now + 1800000;
      status = ReservationStatus.active;
    }
    ∷ reservation_rows order store now (serial + 1) is

abbrev actor : Option ℕ → ℕ → ℕ
actor none customer = customer
actor (some a) customer = a

abbrev created_event : CodInput → ℕ → OrderEvent
created_event input id = record {
  order_id = id;
  event_type = EventType.created;
  from_status = no_state;
  to_status = order_state pending_payment;
  metadata = details;
  created_by = some (actor input.actor_id input.customer_id);
}

-- The five writes.
abbrev pub placed : CodInput → ℕ → ℕ → ℕ → ℕ → ℕ → ℕ → List CanonicalItem → Shop → Shop
placed input id serial now print store shipping items s = record s {
  orders = record s.orders {
    orders = s.orders.orders ++ new_order input id print store (subtotal_of items) shipping ∷ [];
    items = s.orders.items ++ order_items id items;
    events = s.orders.events ++ created_event input id ∷ [];
    shelf = record s.orders.shelf {
      reservations = s.orders.shelf.reservations ++ reservation_rows id store now serial items;
    };
  };
  carts = update (λ c. c.id == input.cart_id) (λ c. record c { status = converted }) s.carts;
}

-- From the fulfilment store on.
unfoldable pub place_order : CodInput → ℕ → ℕ → ℕ → ℕ → Place → M Shop CheckoutError WebOrder
place_order input id serial now print p s =
    let rows = rows_of_cart input.cart_id s in
    let items = canonical_items now p.store s (requests rows) in
    (lift (open_store (head? (select (is_accepting p.store) s.stores)))
        >> need (head? (select (is_cart_of input p.store) s.carts)) cart_unavailable
        >>= λ cart.
            guard (not (is_empty rows)) cart_empty
            >> lift (priced_items items)
            >> lift (shipping_of now input (subtotal_of items) s p)
            >>= λ shipping.
                modify (placed input id serial now print p.store shipping items)
                >> return (new_order input id print p.store (subtotal_of items) shipping))
      s

abbrev pub same_print : Option ℕ → ℕ → Bool
same_print none p = false
same_print (some q) p = q == p

abbrev pub order_once : CodInput → ℕ → ℕ → ℕ → ℕ → Option WebOrder → M Shop CheckoutError WebOrder
order_once input id serial now print (some o) s =
    if same_print o.idempotency_request_fingerprint print
    then (ok o, s)
    else (err idempotency_conflict, s)
order_once input id serial now print none s =
    (lift (place_of now input s) >>= place_order input id serial now print) s

-- createCodOrder; `digest` is the SHA-256 of the request and the cart's rows, `id` the id of a new order
-- and `serial` that of its first reservation.
unfoldable pub create_cod_order :
    (CodInput → List (ℕ × ℕ) → ℕ) → CodInput → ℕ → ℕ → ℕ → M Shop CheckoutError WebOrder
create_cod_order digest input id serial now = transaction (λ s.
    order_once input id serial now (digest input (fingerprint_rows input s))
      (order_of_key input.idempotency_key input.customer_id s) s)
