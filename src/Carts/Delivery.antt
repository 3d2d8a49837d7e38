-- ===== src/Carts/Delivery.antt =====
-- DeliveryZoneService of backend/src/services/deliveryZoneService.ts: which store serves an address, and
-- what the delivery costs. The operations that edit the zones are left out.
use modern_trade_website.Prelude.{
  ◌&&◌, ◌+◌, Option, is_empty, none, ◌==◌, false, any, head?, List, ◌||◌, some, true, leb, not, ltb,
  ℕ, Bool, is_some, if◌then◌else◌,
}
use modern_trade_website.Carts.Rows.{Shop, DeliveryZone, Store}
use modern_trade_website.Prelude.Table.{order_by, select}

abbrev not_before : ℕ → Option ℕ → Bool
not_before now none = true
not_before now (some t) = leb t now

abbrev not_after : ℕ → Option ℕ → Bool
not_after now none = true
not_after now (some t) = leb now t

abbrev is_open_zone : ℕ → DeliveryZone → Bool
is_open_zone now z = z.is_active && (not_before now z.effective_date && not_after now z.expiry_date)

-- getStoreDeliveryZones
unfoldable pub get_store_delivery_zones : ℕ → ℕ → Bool → Shop → List DeliveryZone
get_store_delivery_zones now store active_only s =
    order_by (λ z y. leb z.zone_name y.zone_name)
      (select (λ z. z.store_id == store && (not active_only || is_open_zone now z)) s.zones)

-- array.includes(n)
abbrev pub contains : List ℕ → ℕ → Bool
contains ns n = any (λ m. m == n) ns

-- Whether the loop stops at a zone.
abbrev pub serves : ℕ → ℕ → DeliveryZone → Bool
serves municipality ward z =
    if contains z.included_municipalities municipality
    then is_empty z.included_wards || contains z.included_wards ward
    else contains z.included_wards ward

-- The zone that the loop ends with.
abbrev pub matched_zone : ℕ → ℕ → ℕ → ℕ → Shop → Option DeliveryZone
matched_zone now municipality ward store s =
    head? (select (serves municipality ward) (get_store_delivery_zones now store true s))

-- `value && threshold && value >= threshold`
abbrev is_free : ℕ → Option ℕ → Bool
is_free value none = false
is_free value (some t) = ltb 0 value && (ltb 0 t && leb t value)

abbrev delivery_fee : ℕ → DeliveryZone → ℕ
delivery_fee value z =
    if is_free value z.free_delivery_threshold then 0 else z.base_fee + z.surcharge

abbrev zone_quote : ℕ → Option DeliveryZone → Option ℕ
zone_quote value none = none
zone_quote value (some z) =
    if ltb 0 value && (ltb 0 z.minimum_order_value && ltb value z.minimum_order_value)
    then none
    else some (delivery_fee value z)

-- getDeliveryQuote: the fee, where the address is serviceable.
unfoldable pub get_delivery_quote : ℕ → ℕ → ℕ → ℕ → ℕ → Shop → Option ℕ
get_delivery_quote now municipality ward store value s =
    zone_quote value (matched_zone now municipality ward store s)

-- The stores that are open, by name and id.
abbrev pub open_stores : Shop → List Store
open_stores s =
    order_by (λ a b. ltb a.name b.name || (a.name == b.name && leb a.id b.id))
      (select (λ a. a.published && not a.is_temporarily_closed) s.stores)

abbrev store_id : Option Store → Option ℕ
store_id none = none
store_id (some a) = some a.id

-- resolveFulfillmentStore, at the order value 0
unfoldable pub resolve_fulfillment_store : ℕ → ℕ → ℕ → Shop → Option ℕ
resolve_fulfillment_store now municipality ward s = store_id (
    head?
      (select (λ a. is_some (get_delivery_quote now municipality ward a.id 0 s)) (open_stores s)))

-- getDefaultOpenStoreId
unfoldable pub get_default_open_store_id : Shop → Option ℕ
get_default_open_store_id s = store_id (head? (open_stores s))
