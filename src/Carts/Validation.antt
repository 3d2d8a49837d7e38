-- ===== src/Carts/Validation.antt =====
-- loadCanonicalCartItems and CartValidationService.validate of
-- backend/src/services/cartValidationService.ts.
use modern_trade_website.Prelude.{
  ◌&&◌, ◌+◌, Option, is_empty, none, ◌++◌, ◌==◌, false, any, ◌∷◌, head?, ◌=?◌, List, ◌||◌, some,
  ◌*◌, true, leb, not, ltb, ℕ, Bool, is_some, [], if◌then◌else◌,
}
use modern_trade_website.Prelude.Outcome.{ok, Result, err}
use modern_trade_website.Carts.Rows.{Address, Shop}
use modern_trade_website.Pos.Rows.{Product, Price}
use modern_trade_website.Prelude.Int.{◌-ℤ◌, pos, pos_part}
use modern_trade_website.Inventory.Rows.{stock, held}
use modern_trade_website.Carts.Delivery.{resolve_fulfillment_store, get_delivery_quote}
use modern_trade_website.Pos.Sales.{is_current, latest, or_price}
use modern_trade_website.Orders.Rows.{code}
use modern_trade_website.Prelude.Table.{select}

pub record RequestedCartItem : Type 0 where
  pub product_id : ℕ
  pub quantity : ℕ
  pub client_unit_price : Option ℕ

pub data IssueCode : Type 0 where
  product_unavailable product_inactive invalid_quantity price_unavailable out_of_stock : IssueCode
  insufficient_stock price_changed address_not_found address_unserviceable : IssueCode

pub data ItemStatus : Type 0 where
  valid changes_required blocked : ItemStatus

pub record CanonicalItem : Type 0 where
  pub product_id : ℕ
  pub quantity : ℕ
  pub authoritative_price : ℕ
  pub requested_quantity : ℕ
  pub line_total : ℕ
  pub available_quantity : ℕ
  pub status : ItemStatus
  pub issues : List IssueCode

abbrev price_of : Option Price → ℕ
price_of none = 0
price_of (some q) = q.price

-- COALESCE(store_price.price, organization_price.price); none is 0, which is refused alike.
unfoldable pub authoritative_price : ℕ → ℕ → ℕ → Shop → ℕ
authoritative_price now product store s = price_of (
    or_price
      (latest (
        select (λ q. q.product_id == product && (q.store_id =? store && is_current now q))
          s.prices))
      (latest (
        select (λ q. q.product_id == product && (not (is_some q.store_id) && is_current now q))
          s.prices)))

-- Math.max(0, stock - reserved)
unfoldable pub available_quantity : ℕ → ℕ → ℕ → Shop → ℕ
available_quantity now product store s = pos_part (
    stock store product s.orders.shelf.batches
    -ℤ pos (held now store product s.orders.shelf.reservations))

-- The first chain of tests: a status, the issue found and the quantity that is left.
abbrev pub verdict : Option Product → ℕ → ℕ → ℕ → ItemStatus × (List IssueCode × ℕ)
verdict none price available quantity = (blocked, (product_unavailable ∷ [], 0))
verdict (some p) price available quantity =
    if not p.published
    then (blocked, (product_inactive ∷ [], 0))
    else if ltb quantity 1 || ltb 999 quantity
    then (blocked, (invalid_quantity ∷ [], 0))
    else if leb price 0
    then (blocked, (price_unavailable ∷ [], 0))
    else if leb available 0
    then (blocked, (out_of_stock ∷ [], 0))
    else if ltb available quantity
    then (changes_required, (insufficient_stock ∷ [], available))
    else (valid, ([], quantity))

abbrev pub client_differs : ℕ → Option ℕ → Bool
client_differs price none = false
client_differs price (some c) = ltb 0 price && not (c == price)

abbrev pub or_changes : ItemStatus → ItemStatus
or_changes valid = changes_required
or_changes s = s

abbrev pub canonical : RequestedCartItem → ℕ → ℕ → ItemStatus × (List IssueCode × ℕ) → CanonicalItem
canonical r price available (status, (issues, quantity)) =
    let changed = client_differs price r.client_unit_price in
    record {
      product_id = r.product_id;
      quantity = quantity;
      authoritative_price = price;
      requested_quantity = r.quantity;
      line_total = price * quantity;
      available_quantity = available;
      status = if changed then or_changes status else status;
      issues = if changed then issues ++ price_changed ∷ [] else issues;
    }

-- One item of loadCanonicalCartItems; a quantity that is no whole number is refused like 0.
unfoldable pub canonical_item : ℕ → ℕ → Shop → RequestedCartItem → CanonicalItem
canonical_item now store s r =
    let price = authoritative_price now r.product_id store s in
    let available = available_quantity now r.product_id store s in
    canonical r price available
      (verdict (head? (select (λ p. p.id == r.product_id) s.products)) price available r.quantity)

unfoldable pub canonical_items : ℕ → ℕ → Shop → List RequestedCartItem → List CanonicalItem
canonical_items now store s [] = []
canonical_items now store s (r ∷ rs) = canonical_item now store s r ∷ canonical_items now store s rs

-- `sum + item.line_total`
abbrev pub subtotal_of : List CanonicalItem → ℕ
subtotal_of [] = 0
subtotal_of (i ∷ is) = i.line_total + subtotal_of is

abbrev pub is_blocked : ItemStatus → Bool
is_blocked blocked = true
is_blocked _ = false

abbrev pub is_changed : ItemStatus → Bool
is_changed changes_required = true
is_changed _ = false

pub data CartVerdict : Type 0 where
  ready changes_required blocked : CartVerdict

pub record Validated : Type 0 where
  pub status : CartVerdict
  pub fulfillment_store_id : Option ℕ
  pub delivery_fee : Option ℕ
  pub subtotal : ℕ
  pub total : ℕ
  pub items : List CanonicalItem
  pub issues : List IssueCode

abbrev refused : IssueCode → Validated
refused code = record {
  status = blocked;
  fulfillment_store_id = none;
  delivery_fee = none;
  subtotal = 0;
  total = 0;
  items = [];
  issues = code ∷ [];
}

abbrev all_issues : List CanonicalItem → List IssueCode
all_issues [] = []
all_issues (i ∷ is) = i.issues ++ all_issues is

abbrev quoted : ℕ → List CanonicalItem → Option ℕ → Validated
quoted store items none = record {
  status = blocked;
  fulfillment_store_id = some store;
  delivery_fee = none;
  subtotal = subtotal_of items;
  total = subtotal_of items;
  items = items;
  issues = all_issues items ++ address_unserviceable ∷ [];
}
quoted store items (some fee) = record {
  status =
      if any (λ i. is_blocked i.status) items
      then blocked
      else if any (λ i. is_changed i.status) items
      then changes_required
      else ready;
  fulfillment_store_id = some store;
  delivery_fee = some fee;
  subtotal = subtotal_of items;
  total = subtotal_of items + fee;
  items = items;
  issues = all_issues items;
}

abbrev at_store : ℕ → ℕ → ℕ → List RequestedCartItem → Shop → Option ℕ → Result Unit Validated
at_store now municipality ward rs s none = ok (refused address_unserviceable)
at_store now municipality ward rs s (some store) =
    let items = canonical_items now store s rs in
    if is_empty rs
    then err tt
    else ok
        (quoted store items (get_delivery_quote now municipality ward store (subtotal_of items) s))

abbrev pub has_ward : ℕ → ℕ → Shop → Bool
has_ward municipality ward s =
    is_some (head? (select (λ w. w.id == ward && w.municipality_id == municipality) s.wards))

abbrev at_place : ℕ → List RequestedCartItem → Shop → Option ℕ → Option ℕ → Result Unit Validated
at_place now rs s none ward = ok (refused address_unserviceable)
at_place now rs s (some municipality) none = ok (refused address_unserviceable)
at_place now rs s (some municipality) (some ward) =
    if has_ward municipality ward s
    then at_store now municipality ward rs s (resolve_fulfillment_store now municipality ward s)
    else ok (refused address_unserviceable)

abbrev at_address : ℕ → List RequestedCartItem → Shop → Option Address → Result Unit Validated
at_address now rs s none = ok (refused address_not_found)
at_address now rs s (some a) = at_place now rs s a.municipality_id a.ward_id

abbrev pub address_of : ℕ → ℕ → Shop → Option Address
address_of id customer s = head? (select (λ a. a.id == id && a.customer_id == customer) s.addresses)

-- validate; it throws on an empty cart, once a store is found.
unfoldable pub validate : ℕ → ℕ → ℕ → List RequestedCartItem → Shop → Result Unit Validated
validate now customer address rs s = at_address now rs s (address_of address customer s)
