-- ===== src/Payments/Examples.antt =====
-- One payment at concrete tables. The hash is a stand-in.
use modern_trade_website.Payments.Rows.{
  cash, json, esewa, Config, PaymentIntent, total_amount, fields, form, completed, Db,
}
use modern_trade_website.Payments.Intents.{
  sign_esewa_data, intent_of_key, new_intent, assert_provider_available, initiate_esewa_payment,
  create_payment_intent, PaymentData, Hmac, status_missing,
}
use modern_trade_website.Prelude.Outcome.{err, ok}
use modern_trade_website.Prelude.{refl, none, false, length, ◌+◌, ◌∷◌, true, ◌≡◌, some, [], ◌⊎◌}
use modern_trade_website.Payments.Webhooks.Once.{process_webhook-once}
use modern_trade_website.Payments.Webhooks.{
  no_unique_index, process_ids, process_webhook, intent_of_number, from_esewa, duplicate_ignored,
  EsewaData,
}
use modern_trade_website.Payments.Webhooks.Forged.{no_headers}
use modern_trade_website.Payments.Refunds.{refund_payment, refund_with_provider}
use modern_trade_website.Prelude.Int.{pos}
use modern_trade_website.Prelude.Table.{select}

abbrev hash : Hmac
hash none m = 0
hash (some k) (fields fs) = k + length fs
hash (some k) (json n) = k + n

abbrev pilot : Config
pilot = record {
  webhook_index = true;
  production = false;
  enable_payment_mock = false;
  enable_electronic_payments = true;
  esewa_merchant_code = some 5;
  esewa_secret_key = some 600;
  khalti_secret_key = none;
  khalti_public_key = none;
  app_url = some 1;
  esewa_success_url = none;
  khalti_website_url = none;
}

abbrev no_payments : Db
no_payments = record { intents = []; logs = []; refunds = []; reconciliations = [] }

abbrev request : PaymentData
request = record {
  provider = esewa;
  amount_npr = 125000;
  currency = none;
  order_reference = some 40;
  customer_id = some 3;
  store_id = 1;
  idempotency_key = some 90;
}

abbrev intent : PaymentIntent
intent = new_intent request 1 1001 20 (form (sign_esewa_data hash pilot 1001 125000))

request_made : (create_payment_intent hash pilot none request 1 1001 20 no_payments).0 ≡ ok intent
unfolding create_payment_intent assert_provider_available initiate_esewa_payment select
request_made = refl

no_key : intent_of_key (some 90) no_payments ≡ none
unfolding select
no_key = refl

no_number : intent_of_number (some 1001) no_payments ≡ none
unfolding select
no_number = refl

-- Anyone's webhook, without a signature.
abbrev unsigned : EsewaData
unsigned = record {
  transaction_id = some 777;
  pid = none;
  t_id = none;
  transaction_uuid = some 1001;
  transaction_code = none;
  is_complete = false;
  total_amount = none;
  product_code = none;
  signed_field_names = [];
  other_fields = λ n. none;
  signature = none;
}

abbrev genuine : EsewaData
genuine = record unsigned {
  is_complete = true;
  total_amount = some 125000;
  product_code = some 5;
  signed_field_names = total_amount ∷ [];
  signature = some 601;
}

-- The database that the migrations make.
abbrev migrated : Config
migrated = record pilot { webhook_index = false }

refused_insert :
    process_webhook hash migrated (from_esewa genuine) no_headers none 9 600 no_payments
    ≡ (no_unique_index, no_payments)
unfolding process_webhook process_ids
refused_insert = refl

process_webhook-once_example :
    let first =
      process_webhook hash pilot (from_esewa unsigned) no_headers none 8 500 no_payments in
    let second = process_webhook hash pilot (from_esewa genuine) no_headers none 9 600 first.1 in
    (second.1 ≡ first.1)
    × (((pilot.webhook_index ≡ true) × (second.0 ≡ duplicate_ignored))
        ⊎ ((pilot.webhook_index ≡ false)
            × (first ≡ (no_unique_index, no_payments))
            × (second.0 ≡ no_unique_index)))
process_webhook-once_example =
    process_webhook-once hash pilot (from_esewa unsigned) (from_esewa genuine) no_headers no_headers
      none none 8 500 9 600 777 777 777 no_payments refl refl refl refl refl

abbrev cash_intent : PaymentIntent
cash_intent = record intent { provider = cash; status = completed }

abbrev cash_payments : Db
cash_payments = record no_payments { intents = cash_intent ∷ [] }

refund_refused :
    refund_payment pilot 1 (pos 500) (some 33) 44 600 cash_payments
    ≡ (err status_missing, cash_payments)
unfolding refund_payment refund_with_provider select
refund_refused = refl
