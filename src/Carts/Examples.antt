-- ===== src/Carts/Examples.antt =====
-- One checkout at concrete tables: a pickup of two bags of rice.
use modern_trade_website.Orders.Rows.{Db as Orders, DeliveryType, WebOrder}
use modern_trade_website.Prelude.Int.{◌+ℤ◌, pos, ◌≤ℤ◌, ◌-ℤ◌}
use modern_trade_website.Carts.Checkout.Once.{create_cod_order-once}
use modern_trade_website.Inventory.Rows.{held, Batch, stock}
use modern_trade_website.Prelude.Table.{Distinct, sum_ℤ, order_by, insert_by, sum, select}
use modern_trade_website.Prelude.{
  true, arith, false, refl, List, ◌+◌, none, ℕ, ◌≡◌, length, ◌∷◌, [],
}
use modern_trade_website.Carts.Checkout.Asked.{asked}
use modern_trade_website.Carts.Checkout.Covered.{create_cod_order-IsCovered}
use modern_trade_website.Carts.Places.{shipping_of, CodInput, place_of}
use modern_trade_website.Prelude.Outcome.{ok}
use modern_trade_website.Carts.Checkout.{
  place_order, create_cod_order, new_order, priced_items, order_of_key, rows_of_cart,
}
use modern_trade_website.Carts.Rows.{Shop, CartStatus}
use modern_trade_website.Inventory.Issue.Product.{rows}
use modern_trade_website.Carts.Validation.{
  available_quantity, authoritative_price, canonical_items, canonical_item,
}
use modern_trade_website.Carts.Delivery.{get_default_open_store_id}

abbrev rice_batch : Batch
rice_batch = record {
  id = 1;
  store_id = 1;
  product_id = 7;
  batch_id = 11;
  expiry_date = 20;
  quantity = pos 3;
  created_at = 1;
}

abbrev no_orders : Orders
no_orders = record {
  orders = [];
  items = [];
  events = [];
  fulfillments = [];
  collections = [];
  shelf = record { batches = rice_batch ∷ []; reservations = []; movements = [] };
}

abbrev shop : Shop
shop = record {
  orders = no_orders;
  carts = record { id = 9; customer_id = 3; store_id = 1; status = CartStatus.active } ∷ [];
  cart_items = record { cart_id = 9; product_id = 7; quantity = 2 } ∷ [];
  addresses = [];
  wards = [];
  stores = record { id = 1; name = 5; published = true; is_temporarily_closed = false } ∷ [];
  zones = [];
  products = record { id = 7; published = true } ∷ [];
  prices =
      record {
        product_id = 7;
        store_id = none;
        price = 12550;
        active = true;
        valid_from = 1;
        valid_to = none;
      }
      ∷ [];
}

abbrev pickup : CodInput
pickup = record {
  customer_id = 3;
  address_id = none;
  cart_id = 9;
  idempotency_key = 60;
  delivery_type = DeliveryType.other 1;
  in_country = true;
  has_shipping_address = false;
  texts = 0;
  actor_id = none;
}

abbrev print : CodInput → List (ℕ × ℕ) → ℕ
print input rows = length rows

abbrev picked : WebOrder
picked = new_order pickup 50 1 1 25100 0

no_such_order : order_of_key 60 3 shop ≡ none
unfolding select
no_such_order = refl

order_made : (create_cod_order print pickup 50 70 100 shop).0 ≡ ok picked
unfolding create_cod_order place_order place_of get_default_open_store_id priced_items
    canonical_items canonical_item authoritative_price available_quantity shipping_of select
    order_by insert_by sum sum_ℤ ◌+ℤ◌ ◌-ℤ◌
order_made = refl

cart_once : Distinct (λ i. i.product_id) (rows_of_cart 9 shop)
unfolding select order_by insert_by
cart_once = omega arith

create_cod_order-IsCovered_example :
    let after = (create_cod_order print pickup 50 70 100 shop).1 in
    (after.orders.shelf.batches ≡ shop.orders.shelf.batches)
    × ((p : ℕ)
        → (held 100 1 p after.orders.shelf.reservations
            ≡ held 100 1 p shop.orders.shelf.reservations
              + asked 100 1 shop p (rows_of_cart 9 shop))
          × (pos (held 100 1 p shop.orders.shelf.reservations)
                ≤ℤ stock 1 p shop.orders.shelf.batches
              → pos (held 100 1 p after.orders.shelf.reservations)
                ≤ℤ stock 1 p after.orders.shelf.batches))
create_cod_order-IsCovered_example =
    create_cod_order-IsCovered print pickup 50 70 100 shop picked no_such_order cart_once order_made

create_cod_order-once_example :
    let after = (create_cod_order print pickup 50 70 100 shop).1 in
    create_cod_order print pickup 51 80 200 after ≡ (ok picked, after)
create_cod_order-once_example =
    create_cod_order-once print pickup 50 70 100 51 80 200 shop picked no_such_order order_made
