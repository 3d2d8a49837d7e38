-- ===== src/Payments/Webhooks.antt =====
-- processWebhook of backend/src/services/paymentService.ts: what eSewa and Khalti post to the shop. Its
-- statements run outside a transaction. The text of an amount or a number is that number.
pub mod Once
pub mod Forged
use modern_trade_website.Prelude.{
  is_empty, head?, some, ◌=?◌, Bool, true, not, ◌==◌, none, ◌++◌, List, ◌∷◌, false, is_some, ◌&&◌,
  ℕ, Option, [], if◌then◌else◌,
}
use modern_trade_website.Payments.Intents.{
  lift, or_else, Reply, Hmac, verify_khalti_status, intent_found, PaymentError,
  khalti_not_completed, amount_mismatch, Looked, code_mismatch,
}
use modern_trade_website.Payments.Rows.{
  WebhookLog, esewa, LogStatus, IntentStatus, json, Field, provider_code, PaymentIntent, khalti,
  Message, Config, processed, fields, status_code, Provider, Db, completed, failed,
}
use modern_trade_website.Prelude.Outcome.{
  transaction, guard, modify, Result, M, ok, err, ◌>>=◌, ◌>>◌,
}
use modern_trade_website.Prelude.Table.{select, update}

pub record Headers : Type 0 where
  pub x_esewa_signature : Option ℕ
  pub x_khalti_signature : Option ℕ
  pub signature : Option ℕ

-- The body that eSewa posts; `other_fields` are the values of the fields that the service does not name.
pub record EsewaData : Type 0 where
  pub transaction_id : Option ℕ
  pub pid : Option ℕ
  pub t_id : Option ℕ
  pub transaction_uuid : Option ℕ
  pub transaction_code : Option ℕ
  pub is_complete : Bool
  pub total_amount : Option ℕ
  pub product_code : Option ℕ
  pub signed_field_names : List Field
  pub other_fields : ℕ → Option ℕ
  pub signature : Option ℕ

-- The body that Khalti posts, and its text as JSON.
pub record KhaltiData : Type 0 where
  pub idx : Option ℕ
  pub transaction_id : Option ℕ
  pub purchase_order_id : Option ℕ
  pub signature : Option ℕ
  pub text : ℕ

pub data WebhookData : Type 0 where
  from_esewa : EsewaData → WebhookData
  from_khalti : KhaltiData → WebhookData

abbrev pub provider_of : WebhookData → Provider
provider_of (from_esewa d) = esewa
provider_of (from_khalti d) = khalti

-- extractWebhookId
abbrev pub extract_webhook_id : WebhookData → Option ℕ
extract_webhook_id (from_esewa d) = or_else (or_else d.transaction_id d.pid) d.t_id
extract_webhook_id (from_khalti d) = or_else d.idx d.transaction_id

-- extractProviderTransactionId
abbrev pub extract_provider_transaction_id : WebhookData → Option ℕ
extract_provider_transaction_id (from_esewa d) = or_else d.transaction_id d.pid
extract_provider_transaction_id (from_khalti d) = d.idx

abbrev own_signature : WebhookData → Option ℕ
own_signature (from_esewa d) = d.signature
own_signature (from_khalti d) = d.signature

-- extractSignature
abbrev pub extract_signature : Headers → WebhookData → Option ℕ
extract_signature h w =
    or_else (or_else (or_else h.x_esewa_signature h.x_khalti_signature) h.signature)
      (own_signature w)

abbrev value : EsewaData → Field → Option ℕ
value d Field.total_amount = d.total_amount
value d Field.transaction_uuid = d.transaction_uuid
value d Field.product_code = d.product_code
value d (Field.other n) = d.other_fields n

abbrev signed_fields : EsewaData → List Field → List (Field × Option ℕ)
signed_fields d [] = []
signed_fields d (f ∷ fs) = (f, value d f) ∷ signed_fields d fs

abbrev under_key : Hmac → Option ℕ → Message → Option ℕ
under_key hmac none m = none
under_key hmac (some k) m = some (hmac (some k) m)

-- calculateWebhookSignature
unfoldable pub calculate_webhook_signature : Hmac → Config → WebhookData → Option ℕ
calculate_webhook_signature hmac c (from_esewa d) =
    if is_empty d.signed_field_names
    then none
    else under_key hmac c.esewa_secret_key (fields (signed_fields d d.signed_field_names))
calculate_webhook_signature hmac c (from_khalti d) =
    under_key hmac c.khalti_secret_key (json d.text)

-- safeEqual
abbrev pub safe_equal : Option ℕ → Option ℕ → Bool
safe_equal none calculated = false
safe_equal (some a) calculated = calculated =? a

abbrev pub same_code : Option ℕ → Option ℕ → Bool
same_code none none = true
same_code none (some b) = false
same_code (some a) b = b =? a

abbrev pub intent_of_number : Option ℕ → Db → Option PaymentIntent
intent_of_number none db = none
intent_of_number (some number) db = head? (select (λ i. i.intent_number == number) db.intents)

abbrev pub settled : IntentStatus → Option ℕ → ℕ → PaymentIntent → PaymentIntent
settled status transaction now i = record i {
  status = status;
  provider_transaction_id = transaction;
  completed_at = some now;
}

-- The two UPDATEs that end a provider's processing.
abbrev pub settle_intent : IntentStatus → Option ℕ → ℕ → PaymentIntent → ℕ → Db → Db
settle_intent status transaction now intent log db = record db {
  intents =
      update (λ i. i.intent_number == intent.intent_number) (settled status transaction now)
        db.intents;
  logs = update (λ l. l.id == log) (λ l. record l { payment_intent_id = some intent.id }) db.logs;
}

-- processEsewaWebhook
unfoldable pub process_esewa_webhook : Config → EsewaData → ℕ → ℕ → M Db PaymentError (Unit {0})
process_esewa_webhook c d log now =
    (λ db. (intent_found (intent_of_number (or_else d.transaction_uuid d.pid) db), db))
    >>= λ intent.
        guard (d.total_amount =? intent.amount_npr) amount_mismatch
        >> guard (same_code d.product_code c.esewa_merchant_code) code_mismatch
        >> modify (
            settle_intent (if d.is_complete then completed else failed)
              (or_else d.transaction_code d.transaction_id) now intent log)

-- processKhaltiWebhook
unfoldable pub process_khalti_webhook :
    Config → KhaltiData → Reply Looked → ℕ → ℕ → M Db PaymentError (Unit {0})
process_khalti_webhook c d reply log now =
    (λ db. (intent_found (intent_of_number d.purchase_order_id db), db)) >>= λ intent.
    lift (verify_khalti_status c intent reply) >>= λ status.
    guard (status_code status == status_code completed) khalti_not_completed
    >> modify (settle_intent status d.idx now intent log)

abbrev pub process_by_provider :
    Config → WebhookData → Reply Looked → ℕ → ℕ → M Db PaymentError (Unit {0})
process_by_provider c (from_esewa d) reply = process_esewa_webhook c d
process_by_provider c (from_khalti d) reply = process_khalti_webhook c d reply

pub data Answer : Type 0 where
  missing_id duplicate_ignored invalid_signature processed_ok : Answer
  -- the call throws what PostgreSQL answers to the INSERT
  no_unique_index : Answer
  processing_failed : PaymentError → Answer

-- `success` of the answer
abbrev pub success : Answer → Bool
success duplicate_ignored = true
success processed_ok = true
success _ = false

abbrev pub mark : LogStatus → ℕ → Db → Db
mark status log db = record db {
  logs = update (λ l. l.id == log) (λ l. record l { processing_status = status }) db.logs;
}

abbrev pub answered : ℕ → Result PaymentError (Unit {0}) × Db → Answer × Db
answered log (ok u, db) = (processed_ok, mark processed log db)
answered log (err e, db) = (processing_failed e, mark LogStatus.failed log db)

-- The logs of a provider under a webhook's id.
abbrev pub is_log_of : Provider → ℕ → WebhookLog → Bool
is_log_of p id l = provider_code l.provider == provider_code p && l.webhook_id == id

abbrev pub log_of : Provider → ℕ → Db → Option WebhookLog
log_of p id db = head? (select (is_log_of p id) db.logs)

abbrev pub new_log : WebhookData → ℕ → ℕ → Bool → ℕ → WebhookLog
new_log w webhook transaction valid id = record {
  id = id;
  provider = provider_of w;
  webhook_id = webhook;
  provider_transaction_id = transaction;
  signature_valid = valid;
  is_duplicate = false;
  original_webhook_id = none;
  payment_intent_id = none;
  processing_status = LogStatus.pending;
}

abbrev pub logged : WebhookData → ℕ → ℕ → Bool → ℕ → Db → Db
logged w webhook transaction valid id db = record db {
  logs = db.logs ++ new_log w webhook transaction valid id ∷ [];
}

-- From the two ids on. The INSERT is refused where no unique index fits its ON CONFLICT; else a log under
-- the webhook's id makes it do nothing.
unfoldable pub process_ids :
    Hmac → Config → WebhookData → Headers → Reply Looked → ℕ → ℕ → ℕ → ℕ → Db → Answer × Db
process_ids hmac c w h reply id now webhook transaction db =
    let valid = safe_equal (extract_signature h w) (calculate_webhook_signature hmac c w) in
    let after = logged w webhook transaction valid id db in
    let done = answered id (process_by_provider c w reply id now after) in
    if not c.webhook_index
    then (no_unique_index, db)
    else if is_some (log_of (provider_of w) webhook db)
    then (duplicate_ignored, db)
    else if not valid
    then (invalid_signature, mark LogStatus.failed id after)
    else done

abbrev with_ids : Option ℕ → Option ℕ → (ℕ → ℕ → Db → Answer × Db) → Db → Answer × Db
with_ids none transaction f db = (missing_id, db)
with_ids (some webhook) none f db = (missing_id, db)
with_ids (some webhook) (some transaction) f db = f webhook transaction db

-- processWebhook; `id` is the id of a new log.
unfoldable pub process_webhook :
    Hmac → Config → WebhookData → Headers → Reply Looked → ℕ → ℕ → Db → Answer × Db
process_webhook hmac c w h reply id now =
    with_ids (extract_webhook_id w) (extract_provider_transaction_id w)
      (process_ids hmac c w h reply id now)
