-- ===== src/CodPolicy/Examples.antt =====
-- Payment on delivery under concrete policies.
use modern_trade_website.Prelude.{none, some, ◌≡◌, List, ◌∷◌, [], true, false, refl, ◌↔◌}
use modern_trade_website.Prelude.Table.{select, order_by, insert_by}
use modern_trade_website.CodPolicy.{
  CodPolicy, CustomerRow, CheckData, CodReason, check_policy, check_cod_eligibility,
  get_active_cod_policy, ineligible,
}
use modern_trade_website.CodPolicy.Eligible.{check_cod_eligibility-eligible, PassesTests}

abbrev old_policy : CodPolicy
old_policy = record {
  id = 1;
  store_id = some 1;
  max_cod_amount = some 1000;
  min_cod_amount = none;
  restricted_zones = none;
  restricted_categories = none;
  high_value_threshold = none;
  high_value_cod_allowed = false;
  allow_for_risk_customers = false;
  prepaid_only_for_new_customers = false;
  prepaid_only_days_after_registration = none;
  max_failed_deliveries = none;
  failed_delivery_block_days = none;
  is_active = true;
  effective_date = none;
  expiry_date = none;
  created_at = 10;
}

abbrev policy : CodPolicy
policy = record {
  id = 2;
  store_id = some 1;
  max_cod_amount = some 500000;
  min_cod_amount = some 1000;
  restricted_zones = some (9 ∷ []);
  restricted_categories = some (5 ∷ 6 ∷ []);
  high_value_threshold = some 200000;
  high_value_cod_allowed = false;
  allow_for_risk_customers = false;
  prepaid_only_for_new_customers = true;
  prepaid_only_days_after_registration = some 3;
  max_failed_deliveries = some 2;
  failed_delivery_block_days = some 30;
  is_active = true;
  effective_date = some 15;
  expiry_date = none;
  created_at = 20;
}

abbrev customers : List CustomerRow
customers = record { id = 7; created_at = 0 } ∷ []

abbrev check : CheckData
check = record {
  order_total = 1200;
  customer_id = some 7;
  delivery_zone_id = some 3;
  product_categories = some (1 ∷ 2 ∷ []);
  store_id = some 1;
}

-- On the second day the customer is new.
second_day :
    check_cod_eligibility check 90000000 customers (old_policy ∷ policy ∷ [])
    ≡ ineligible CodReason.new_customer
unfolding check_cod_eligibility check_policy get_active_cod_policy select order_by insert_by
second_day = refl

check_cod_eligibility-eligible_example :
    ((check_cod_eligibility check 400000000 customers (old_policy ∷ policy ∷ [])).eligible ≡ true)
    ↔ PassesTests check 400000000 customers policy
unfolding get_active_cod_policy select order_by insert_by
check_cod_eligibility-eligible_example =
    check_cod_eligibility-eligible check 400000000 customers (old_policy ∷ policy ∷ []) policy refl
