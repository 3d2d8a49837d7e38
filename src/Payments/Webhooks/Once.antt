-- ===== src/Payments/Webhooks/Once.antt =====
-- A webhook's id is taken by the first call, whatever becomes of that call.
use modern_trade_website.Payments.Webhooks.{
  safe_equal, calculate_webhook_signature, log_of, KhaltiData, WebhookData, logged,
  duplicate_ignored, no_unique_index, process_by_provider, from_khalti, same_code, provider_of,
  extract_signature, process_khalti_webhook, is_log_of, new_log, Headers, from_esewa, EsewaData,
  process_ids, answered, intent_of_number, process_esewa_webhook, settle_intent, mark,
  extract_provider_transaction_id, extract_webhook_id, process_webhook,
}
use modern_trade_website.Prelude.{
  refl, ==_refl, ◌≡◌, Option, ◌=?◌, Bool-cases, ◌==◌, inr, some, Bool, inl, ℕ, true, Option-cases,
  if◌then◌else◌, sym, subst, false, ap, ◌⊎◌,
}
use modern_trade_website.Payments.Intents.{
  Reply, verify_khalti_status, PaymentError, or_else, Looked, Hmac, intent_found,
}
use modern_trade_website.Payments.Rows.{
  PaymentIntent, status_code, provider_code, Provider, WebhookLog, processed, IntentStatus, Config,
  LogStatus, Db, completed, failed,
}
use modern_trade_website.Prelude.Outcome.{err, Result-cases, Result, ok}
use modern_trade_website.Prelude.Table.Find.{head?-select_append, head?-select-update}
use modern_trade_website.Prelude.Table.{update}

module _ (p : Provider) (webhook : ℕ) where
  abbrev IsLogged : Db → Type 0
  IsLogged db = (l : WebhookLog) × (log_of p webhook db ≡ some l)

  -- A write to the logs that keeps their providers and webhook ids.
  update-IsLogged :
      (q : WebhookLog → Bool) (f : WebhookLog → WebhookLog) (db : Db)
      → ((l : WebhookLog) → is_log_of p webhook (f l) ≡ is_log_of p webhook l)
      → IsLogged db
      → IsLogged (record db { logs = update q f db.logs })
  update-IsLogged q f db k (l, h) =
      (if q l then f l else l, head?-select-update (is_log_of p webhook) q f db.logs k h)

  mark-IsLogged :
      (status : LogStatus) (log : ℕ) (db : Db) → IsLogged db → IsLogged (mark status log db)
  mark-IsLogged status log db h =
      update-IsLogged (λ l. l.id == log) (λ l. record l { processing_status = status }) db
        (λ l. refl) h

  settle-IsLogged :
      (status : IntentStatus) (t : Option ℕ) (now : ℕ) (i : PaymentIntent) (log : ℕ) (db : Db)
      → IsLogged db
      → IsLogged (settle_intent status t now i log db)
  settle-IsLogged status t now i log db h =
      update-IsLogged (λ l. l.id == log) (λ l. record l { payment_intent_id = some i.id }) db
        (λ l. refl) h

  esewa-IsLogged :
      (c : Config) (d : EsewaData) (log now : ℕ) (db : Db)
      → IsLogged db
      → IsLogged (process_esewa_webhook c d log now db).1
  unfolding process_esewa_webhook
  esewa-IsLogged c d log now db h =
      elim (Result-cases (intent_found (intent_of_number (or_else d.transaction_uuid d.pid) db))) [
        | inr (e, k) ↦ rw k h
        | inl (i, k) ↦ elim (Bool-cases (d.total_amount =? i.amount_npr)) [
          | inr a ↦ rw (k, a) h
          | inl a ↦ elim (Bool-cases (same_code d.product_code c.esewa_merchant_code)) [
            | inr b ↦ rw (k, a, b) h
            | inl b ↦
                rw (k, a, b)
                  (settle-IsLogged (if d.is_complete then completed else failed)
                    (or_else d.transaction_code d.transaction_id) now i log db h)
          ]
        ]
      ]

  khalti-IsLogged :
      (c : Config) (d : KhaltiData) (reply : Reply Looked) (log now : ℕ) (db : Db)
      → IsLogged db
      → IsLogged (process_khalti_webhook c d reply log now db).1
  unfolding process_khalti_webhook
  khalti-IsLogged c d reply log now db h =
      elim (Result-cases (intent_found (intent_of_number d.purchase_order_id db))) [
        | inr (e, k) ↦ rw k h
        | inl (i, k) ↦ elim (Result-cases (verify_khalti_status c i reply)) [
          | inr (e, a) ↦ rw (k, a) h
          | inl (status, a) ↦ elim (Bool-cases (status_code status == status_code completed)) [
            | inr b ↦ rw (k, a, b) h
            | inl b ↦ rw (k, a, b) (settle-IsLogged status d.idx now i log db h)
          ]
        ]
      ]

  provider-IsLogged :
      (c : Config) (w : WebhookData) (reply : Reply Looked) (log now : ℕ) (db : Db)
      → IsLogged db
      → IsLogged (process_by_provider c w reply log now db).1
  provider-IsLogged c (from_esewa d) reply log now db h = esewa-IsLogged c d log now db h
  provider-IsLogged c (from_khalti d) reply log now db h = khalti-IsLogged c d reply log now db h

  answered-IsLogged :
      (log : ℕ) (r : Result PaymentError (Unit {0}) × Db)
      → IsLogged r.1
      → IsLogged (answered log r).1
  answered-IsLogged log (ok u, db) h = mark-IsLogged processed log db h
  answered-IsLogged log (err e, db) h = mark-IsLogged LogStatus.failed log db h

is_log_of_own :
    (w : WebhookData) (webhook t : ℕ) (v : Bool) (id : ℕ)
    → is_log_of (provider_of w) webhook (new_log w webhook t v id) ≡ true
is_log_of_own w webhook t v id = rw (==_refl webhook, ==_refl (provider_code (provider_of w))) refl

module _ (hmac : Hmac) (c : Config) (w : WebhookData) (h : Headers) (reply : Reply Looked)
    (id now webhook t : ℕ) (db : Db) where
  ids-IsLogged :
      c.webhook_index ≡ true
      → IsLogged (provider_of w) webhook (process_ids hmac c w h reply id now webhook t db).1
  unfolding process_ids
  ids-IsLogged index =
      let valid = safe_equal (extract_signature h w) (calculate_webhook_signature hmac c w) in
      elim (Option-cases (log_of (provider_of w) webhook db)) [
        | inr (l, k) ↦ simp (index, k) (l, refl)
        | inl k ↦
            let here : (v : Bool) → IsLogged (provider_of w) webhook (logged w webhook t v id db) =
              λ v. (
                new_log w webhook t v id,
                head?-select_append (is_log_of (provider_of w) webhook) db.logs
                    (new_log w webhook t v id) k (is_log_of_own w webhook t v id),
              ) in
            elim (Bool-cases valid) [
              | inr a ↦
                  simp (index, k, a)
                    (mark-IsLogged (provider_of w) webhook LogStatus.failed id
                      (logged w webhook t false id db) (here false))
              | inl a ↦
                  simp (index, k, a)
                    (answered-IsLogged (provider_of w) webhook id
                      (process_by_provider c w reply id now (logged w webhook t true id db))
                      (provider-IsLogged (provider_of w) webhook c w reply id now
                        (logged w webhook t true id db) (here true)))
            ]
      ]

  ids-duplicate :
      c.webhook_index ≡ true
      → IsLogged (provider_of w) webhook db
      → process_ids hmac c w h reply id now webhook t db ≡ (duplicate_ignored, db)
  unfolding process_ids
  ids-duplicate index (l, k) = simp (index, k) refl

  ids-refused :
      c.webhook_index ≡ false
      → process_ids hmac c w h reply id now webhook t db ≡ (no_unique_index, db)
  unfolding process_ids
  ids-refused index = simp index refl

-- Once a webhook with both of its ids has been posted, with whatever outcome, an invalid signature
-- included, every later webhook of the same provider under the same webhook id, whatever else it says,
-- writes nothing. In a database with the index that the INSERT into the logs asks for it is answered as a
-- duplicate that was ignored, with success. In a database without it, such as the migrations make, both
-- calls throw and the first writes nothing either: no webhook has any effect.
pub process_webhook-once :
    (hmac : Hmac) (c : Config) (w again : WebhookData) (h h' : Headers)
    (reply reply' : Reply Looked) (id now id' now' webhook t t' : ℕ) (db : Db)
    → provider_of again ≡ provider_of w
    → extract_webhook_id w ≡ some webhook
    → extract_provider_transaction_id w ≡ some t
    → extract_webhook_id again ≡ some webhook
    → extract_provider_transaction_id again ≡ some t'
    → let first = process_webhook hmac c w h reply id now db in
      let second = process_webhook hmac c again h' reply' id' now' first.1 in
      (second.1 ≡ first.1)
      × (((c.webhook_index ≡ true) × (second.0 ≡ duplicate_ignored))
          ⊎ ((c.webhook_index ≡ false)
              × (first ≡ (no_unique_index, db))
              × (second.0 ≡ no_unique_index)))
unfolding process_webhook
process_webhook-once hmac c w again h h' reply reply' id now id' now' webhook t t' db same i j k l =
    let after = (process_ids hmac c w h reply id now webhook t db).1 in
    elim (Bool-cases c.webhook_index) [
      | inl index ↦
          let taken : IsLogged (provider_of again) webhook after =
            subst (λ p. IsLogged p webhook after) (sym same)
              (ids-IsLogged hmac c w h reply id now webhook t db index) in
          let ignored =
            ids-duplicate hmac c again h' reply' id' now' webhook t' after index taken in
          rw (i, j, k, l) (ap (λ r. r.1) ignored, inl (index, ap (λ r. r.0) ignored))
      | inr index ↦
          let first = ids-refused hmac c w h reply id now webhook t db index in
          let second = ids-refused hmac c again h' reply' id' now' webhook t' after index in
          rw (i, j, k, l) (ap (λ r. r.1) second, inr (index, first, ap (λ r. r.0) second))
    ]
