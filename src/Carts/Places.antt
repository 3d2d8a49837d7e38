-- ===== src/Carts/Places.antt =====
-- Where createCodOrder of backend/src/services/checkoutService.ts sends an order, and the cost.
use modern_trade_website.Prelude.{
  Option, none, ◌==◌, ℕ, List, ◌&&◌, not, some, ◌||◌, Bool, if◌then◌else◌,
}
use modern_trade_website.Orders.Rows.{DeliveryType, is_delivery}
use modern_trade_website.Carts.Rows.{Shop, Address, Store}
use modern_trade_website.Carts.Validation.{IssueCode, has_ward, address_of}
use modern_trade_website.Prelude.Outcome.{ok, Result, err}
use modern_trade_website.Carts.Delivery.{
  resolve_fulfillment_store, get_default_open_store_id, get_delivery_quote,
}

pub record CodInput : Type 0 where
  pub customer_id : ℕ
  pub address_id : Option ℕ
  pub cart_id : ℕ
  pub idempotency_key : ℕ
  pub delivery_type : DeliveryType
  -- shippingCountry is the market's
  pub in_country : Bool
  pub has_shipping_address : Bool
  -- the other fields that the fingerprint reads
  pub texts : ℕ
  pub actor_id : Option ℕ

pub data CheckoutError : Type 0 where
  idempotency_conflict address_required address_incomplete ward_mismatch outside_area :
      CheckoutError
  no_open_store store_closed cart_unavailable cart_empty not_in_country no_locality : CheckoutError
  item_refused : List IssueCode → CheckoutError

-- Where an order goes, and the store that serves it; a pickup has no place.
pub record Place : Type 0 where
  pub store : ℕ
  pub address : Option Address
  pub municipality : ℕ
  pub ward : ℕ

abbrev placed_at : ℕ → Shop → Address → Option ℕ → Option ℕ → Result CheckoutError Place
placed_at now s a none ward = err address_incomplete
placed_at now s a (some municipality) none = err address_incomplete
placed_at now s a (some municipality) (some ward) =
    if has_ward municipality ward s
    then (elim (resolve_fulfillment_store now municipality ward s) [
      | none ↦ err outside_area
      | some store ↦
          ok (record { store = store; address = some a; municipality = municipality; ward = ward })
    ])
    else err ward_mismatch

abbrev place_of_address : ℕ → Shop → Option Address → Result CheckoutError Place
place_of_address now s none = err address_incomplete
place_of_address now s (some a) = placed_at now s a a.municipality_id a.ward_id

abbrev delivery_place : ℕ → CodInput → Shop → Option ℕ → Result CheckoutError Place
delivery_place now input s none = err address_required
delivery_place now input s (some address) =
    place_of_address now s (address_of address input.customer_id s)

abbrev pickup_place : Option ℕ → Result CheckoutError Place
pickup_place none = err no_open_store
pickup_place (some store) =
    ok (record { store = store; address = none; municipality = 0; ward = 0 })

-- The fulfilment store, which the request does not choose.
unfoldable pub place_of : ℕ → CodInput → Shop → Result CheckoutError Place
place_of now input s =
    if is_delivery input.delivery_type
    then delivery_place now input s input.address_id
    else pickup_place (get_default_open_store_id s)

abbrev pub is_accepting : ℕ → Store → Bool
is_accepting id a = a.id == id && a.published

abbrev pub open_store : Option Store → Result CheckoutError (Unit {0})
open_store none = err store_closed
open_store (some a) = if a.is_temporarily_closed then err store_closed else ok tt

abbrev delivery_cost : Option ℕ → Bool → Result CheckoutError ℕ
delivery_cost none locality = err outside_area
delivery_cost (some fee) locality = if locality then ok fee else err no_locality

abbrev shipping_to : ℕ → CodInput → ℕ → Shop → Place → Option Address → Result CheckoutError ℕ
shipping_to now input subtotal s p none = err not_in_country
shipping_to now input subtotal s p (some a) =
    let quote = get_delivery_quote now p.municipality p.ward p.store subtotal s in
    if not input.in_country
    then err not_in_country
    else if not (has_ward p.municipality p.ward s)
    then err ward_mismatch
    else delivery_cost quote (a.has_locality || input.has_shipping_address)

-- The shipping amount; a pickup has none.
unfoldable pub shipping_of : ℕ → CodInput → ℕ → Shop → Place → Result CheckoutError ℕ
shipping_of now input subtotal s p =
    if is_delivery input.delivery_type then shipping_to now input subtotal s p p.address else ok 0
