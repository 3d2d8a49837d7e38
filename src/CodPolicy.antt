-- ===== src/CodPolicy.antt =====
-- backend/src/services/codPolicyService.ts: which orders may be paid on delivery. Amounts are in the
-- smallest unit of the currency and instants in milliseconds. A DECIMAL column is answered as a text, which is
-- true as a condition even at 0.00, so that only a null switches a limit off. The check does not read
-- allow_for_risk_customers, max_failed_deliveries and failed_delivery_block_days.
pub mod Eligible
pub mod Examples
use modern_trade_website.Prelude.{
  Option, none, some, ◌=?◌, ◌==◌, ℕ, List, ◌∷◌, [], ◌&&◌, not, ◌||◌, Bool, true, false, leb, ltb,
  if◌then◌else◌, head?, ◌-◌, ◌/◌, any,
}
use modern_trade_website.Prelude.Table.{select, order_by}

pub record CodPolicy : Type 0 where
  id : ℕ
  store_id : Option ℕ
  max_cod_amount : Option ℕ
  min_cod_amount : Option ℕ
  restricted_zones : Option (List ℕ)
  restricted_categories : Option (List ℕ)
  high_value_threshold : Option ℕ
  high_value_cod_allowed : Bool
  allow_for_risk_customers : Bool
  prepaid_only_for_new_customers : Bool
  prepaid_only_days_after_registration : Option ℕ
  max_failed_deliveries : Option ℕ
  failed_delivery_block_days : Option ℕ
  is_active : Bool
  effective_date : Option ℕ
  expiry_date : Option ℕ
  created_at : ℕ

pub record CustomerRow : Type 0 where
  id : ℕ
  created_at : ℕ

pub record CheckData : Type 0 where
  order_total : ℕ
  customer_id : Option ℕ
  delivery_zone_id : Option ℕ
  product_categories : Option (List ℕ)
  store_id : Option ℕ

pub data CodReason : Type 0 where
  above_maximum below_minimum zone_restricted category_restricted high_value new_customer :
      CodReason

pub record Eligibility : Type 0 where
  eligible : Bool
  reason : Option CodReason

abbrev pub begun : ℕ → Option ℕ → Bool
begun now none = true
begun now (some d) = leb d now

abbrev pub not_expired : ℕ → Option ℕ → Bool
not_expired now none = true
not_expired now (some d) = leb now d

abbrev pub in_force : ℕ → ℕ → CodPolicy → Bool
in_force store now p =
    (p.store_id =? store)
    && p.is_active
    && begun now p.effective_date
    && not_expired now p.expiry_date

unfoldable pub get_active_cod_policy : ℕ → ℕ → List CodPolicy → Option CodPolicy
get_active_cod_policy store now t =
    head? (order_by (λ p q. leb q.created_at p.created_at) (select (in_force store now) t))

-- Without a store the query has no order: the table stands in the order in which the database reads it.
abbrev pub policy_for : Option ℕ → ℕ → List CodPolicy → Option CodPolicy
policy_for (some store) now t = get_active_cod_policy store now t
policy_for none now t = head? (select (λ p. p.is_active) t)

abbrev pub is_above : Option ℕ → ℕ → Bool
is_above none total = false
is_above (some m) total = ltb m total

abbrev pub is_below : Option ℕ → ℕ → Bool
is_below none total = false
is_below (some m) total = ltb total m

abbrev pub has_entry : ℕ → Option (List ℕ) → Bool
has_entry x none = false
has_entry x (some xs) = any (λ y. y == x) xs

abbrev pub in_zone : Option ℕ → Option (List ℕ) → Bool
in_zone none zones = false
in_zone (some z) zones = has_entry z zones

abbrev pub has_restricted_category : Option (List ℕ) → Option (List ℕ) → Bool
has_restricted_category none restricted = false
has_restricted_category (some cs) restricted = any (λ c. has_entry c restricted) cs

abbrev pub reaches : Option ℕ → ℕ → Bool
reaches none total = false
reaches (some h) total = leb h total

abbrev pub or_zero : Option ℕ → ℕ
or_zero none = 0
or_zero (some n) = n

-- EXTRACT(DAY FROM (NOW() - created_at))
abbrev pub days_since_registration : ℕ → CustomerRow → ℕ
days_since_registration now c = (now - c.created_at) / 86400000

abbrev pub is_newer : ℕ → ℕ → Option CustomerRow → Bool
is_newer days now none = false
is_newer days now (some c) = ltb (days_since_registration now c) days

abbrev pub is_new_customer : Option ℕ → CodPolicy → ℕ → List CustomerRow → Bool
is_new_customer none p now customers = false
is_new_customer (some id) p now customers =
    is_newer (or_zero p.prepaid_only_days_after_registration) now
      (head? (select (λ c. c.id == id) customers))

abbrev pub ineligible : CodReason → Eligibility
ineligible r = record { eligible = false; reason = some r }

unfoldable pub check_policy : CheckData → ℕ → List CustomerRow → CodPolicy → Eligibility
check_policy c now customers p =
    if is_above p.max_cod_amount c.order_total
    then ineligible CodReason.above_maximum
    else if is_below p.min_cod_amount c.order_total
    then ineligible CodReason.below_minimum
    else if in_zone c.delivery_zone_id p.restricted_zones
    then ineligible CodReason.zone_restricted
    else if has_restricted_category c.product_categories p.restricted_categories
    then ineligible CodReason.category_restricted
    else if reaches p.high_value_threshold c.order_total && not p.high_value_cod_allowed
    then ineligible CodReason.high_value
    else if p.prepaid_only_for_new_customers && is_new_customer c.customer_id p now customers
    then ineligible CodReason.new_customer
    else record { eligible = true; reason = none }

abbrev pub check_under : CheckData → ℕ → List CustomerRow → Option CodPolicy → Eligibility
check_under c now customers none = record { eligible = true; reason = none }
check_under c now customers (some p) = check_policy c now customers p

unfoldable pub check_cod_eligibility :
    CheckData → ℕ → List CustomerRow → List CodPolicy → Eligibility
check_cod_eligibility c now customers t = check_under c now customers (policy_for c.store_id now t)
