-- ===== src/Payments/Refunds.antt =====
-- refundPayment and reconcilePayments of backend/src/services/paymentService.ts. Neither is a
-- transaction.
pub mod Retry
use modern_trade_website.Prelude.Table.{count, sum, select, update}
use modern_trade_website.Prelude.Outcome.{
  throw, guard, ok, ◌>>◌, return, M, ◌>>=◌, err, modify, Result, get,
}
use modern_trade_website.Payments.Intents.{
  credentials_missing, PaymentError, find_intent, intent_found, refund_undefined, refund_exceeds,
  status_missing, production_refund, lift, not_completed,
}
use modern_trade_website.Prelude.{
  List, is_empty, true, ℕ, ◌==◌, ◌=?◌, ◌++◌, ◌&&◌, is_some, some, head?, ◌||◌, not, none, ◌∷◌, Bool,
  length, Option, [], if◌then◌else◌,
}
use modern_trade_website.Payments.Rows.{
  Config, Refund, provider_code, Provider, status_code, IntentStatus, khalti, esewa, PaymentIntent,
  refunded, completed, Db, failed, Reconciliation,
}
use modern_trade_website.Prelude.Int.{ℤ, ◌-ℤ◌, pos, ltb_ℤ}

abbrev pub refund_of_key : Option ℕ → Db → Option Refund
refund_of_key none db = none
refund_of_key (some key) db = head? (select (λ r. r.idempotency_key =? key) db.refunds)

-- refundEsewaPayment and refundKhaltiPayment: neither has a contract.
unfoldable pub refund_with_provider : Config → Provider → Result PaymentError (Unit {0})
refund_with_provider c esewa =
    if not (is_some c.esewa_merchant_code) || not (is_some c.esewa_secret_key)
    then err credentials_missing
    else err refund_undefined
refund_with_provider c khalti =
    if not (is_some c.khalti_secret_key) then err credentials_missing else err refund_undefined
refund_with_provider c _ = ok tt

-- From the look for the key on. The INSERT into payment_refunds gives no `status`, a column that
-- database/phase4_payment_schema.sql makes NOT NULL without a default, so that it is refused, and the
-- UPDATE of the intent after it is not reached.
abbrev pub refund_once : Config → PaymentIntent → ℕ → Option Refund → M Db PaymentError ℕ
refund_once c i number (some r) = return r.refund_number
refund_once c i number none = lift (refund_with_provider c i.provider) >> throw status_missing

-- refundPayment; `number` is the number of a new refund, and `now` its instant.
unfoldable pub refund_payment : Config → ℕ → ℤ → Option ℕ → ℕ → ℕ → M Db PaymentError ℕ
refund_payment c id amount key number now =
    guard (not c.production) production_refund
    >> (λ db. (intent_found (find_intent id db), db))
    >>= λ i.
        guard (status_code i.status == status_code completed) not_completed
        >> guard (not (ltb_ℤ (pos i.amount_npr) amount)) refund_exceeds
        >> (λ db. refund_once c i number (refund_of_key key db) db)

-- SUM(amount_npr) FILTER (WHERE …)
abbrev sum_or_null : (PaymentIntent → Bool) → List PaymentIntent → Option ℕ
sum_or_null p t = if is_empty (select p t) then none else some (sum p (λ i. i.amount_npr) t)

-- NULL in a subtraction is 0.
abbrev number : Option ℕ → ℕ
number none = 0
number (some n) = n

abbrev of_store : Option ℕ → PaymentIntent → Bool
of_store none i = true
of_store (some s) i = i.store_id == s

abbrev is_reconciled : ℕ → Provider → Option ℕ → PaymentIntent → Bool
is_reconciled date p store i =
    provider_code i.provider == provider_code p && (i.created_on == date && of_store store i)

abbrev with_status : IntentStatus → PaymentIntent → Bool
with_status s i = status_code i.status == status_code s

-- fetchProviderReconciliation: 0 and 0 without credentials, else it throws.
unfoldable pub fetch_provider_reconciliation : Config → Provider → Result PaymentError (ℕ × ℕ)
fetch_provider_reconciliation c esewa =
    if not (is_some c.esewa_merchant_code) then ok (0, 0) else err refund_undefined
fetch_provider_reconciliation c khalti =
    if not (is_some c.khalti_secret_key) then ok (0, 0) else err refund_undefined
fetch_provider_reconciliation c _ = err refund_undefined

-- `if (this.ESEWA_MERCHANT_CODE || this.KHALTI_SECRET_KEY)`
abbrev provider_data : Config → Provider → Result PaymentError (ℕ × ℕ)
provider_data c p =
    if is_some c.esewa_merchant_code || is_some c.khalti_secret_key
    then fetch_provider_reconciliation c p
    else ok (0, 0)

abbrev reconciled : ℕ → Provider → Option ℕ → List PaymentIntent → ℕ × ℕ → Reconciliation
reconciled date p store t (reported, amount) =
    let rows = select (is_reconciled date p store) t in
    let total = sum_or_null (λ i. true) rows in
    let off = pos (length rows) -ℤ pos reported in
    let amount_off = pos (number total) -ℤ pos amount in
    record {
      reconciliation_date = date;
      provider = p;
      store_id = store;
      transaction_count = length rows;
      total_amount_npr = total;
      successful_count = count (with_status completed) rows;
      successful_amount_npr = sum_or_null (with_status completed) rows;
      failed_count = count (with_status failed) rows;
      failed_amount_npr = sum_or_null (with_status failed) rows;
      refunded_count = count (with_status refunded) rows;
      refunded_amount_npr = sum_or_null (with_status refunded) rows;
      provider_report_count = reported;
      provider_report_amount_npr = amount;
      count_discrepancy = off;
      amount_discrepancy_npr = amount_off;
      is_matched =
          not (ltb_ℤ off (pos 0) || ltb_ℤ (pos 0) off)
          && not (ltb_ℤ amount_off (pos 0) || ltb_ℤ (pos 0) amount_off);
    }

-- reconcilePayments; the provider is eSewa or Khalti.
unfoldable pub reconcile_payments :
    Config → ℕ → Provider → Option ℕ → M Db PaymentError Reconciliation
reconcile_payments c date p store =
    guard (not c.production) production_refund >> lift (provider_data c p) >>= λ reported.
    get >>= λ db.
    modify (λ d. record d {
      reconciliations = d.reconciliations ++ reconciled date p store db.intents reported ∷ [];
    })
    >> return (reconciled date p store db.intents reported)
