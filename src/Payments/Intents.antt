-- ===== src/Payments/Intents.antt =====
-- createPaymentIntent and verifyPaymentStatus of backend/src/services/paymentService.ts. The answers of
-- the providers' servers and HMAC-SHA256 are arguments.
use modern_trade_website.Pos.Rows.{Currency, is_npr}
use modern_trade_website.Prelude.Outcome.{M, ◌>>=◌, guard, modify, return, ok, err, ◌>>◌, Result}
use modern_trade_website.Prelude.{
  none, ◌&&◌, head?, ℕ, ◌||◌, leb, ltb, ◌==◌, Option, ◌∷◌, Bool, false, true, some, is_some, ◌++◌,
  not, ◌=?◌, [], if◌then◌else◌,
}
use modern_trade_website.Payments.Rows.{
  cash, form, khalti, product_code, Provider, esewa, Message, PaymentIntent, IntentStatus, Config,
  mock_qr, card, empty, EsewaForm, transaction_uuid, Metadata, Db, pidx, completed, created,
  total_amount, pending, other, fields,
}
use modern_trade_website.Prelude.Table.{select, update}
use modern_trade_website.Orders.Rows.{code}

pub data PaymentError : Type 0 where
  amount_not_positive amount_exceeds_limit only_npr : PaymentError
  mock_disabled electronic_disabled card_uncertified credentials_missing url_missing : PaymentError
  provider_failed provider_incomplete transaction_mismatch amount_mismatch no_pidx : PaymentError
  intent_not_found production_refund not_completed refund_exceeds refund_undefined : PaymentError
  code_mismatch khalti_not_completed status_missing : PaymentError

-- An answer of a provider's server: `none` where the response is not ok.
abbrev pub Reply : Type 0 → Type 0
Reply = Option

-- assertProviderAvailable
unfoldable pub assert_provider_available : Config → Provider → Result PaymentError (Unit {0})
assert_provider_available c cash = ok tt
assert_provider_available c mock_qr =
    if c.production || not c.enable_payment_mock then err mock_disabled else ok tt
assert_provider_available c card =
    if not c.enable_electronic_payments then err electronic_disabled else err card_uncertified
assert_provider_available c esewa =
    if not c.enable_electronic_payments
    then err electronic_disabled
    else if not (is_some c.esewa_merchant_code) || not (is_some c.esewa_secret_key)
    then err credentials_missing
    else ok tt
assert_provider_available c khalti =
    if not c.enable_electronic_payments
    then err electronic_disabled
    else if not (is_some c.khalti_secret_key) || not (is_some c.khalti_public_key)
    then err credentials_missing
    else ok tt

-- HMAC-SHA256 of a text under a key; no key is the empty key.
abbrev pub Hmac : Type 0
Hmac = Option ℕ → Message → ℕ

abbrev pub signed_message : ℕ → ℕ → Option ℕ → Message
signed_message amount number code =
    fields
      ((total_amount, some amount) ∷ (transaction_uuid, some number) ∷ (product_code, code) ∷ [])

-- signEsewaData
unfoldable pub sign_esewa_data : Hmac → Config → ℕ → ℕ → EsewaForm
sign_esewa_data hmac c number amount = record {
  total_amount = amount;
  transaction_uuid = number;
  product_code = c.esewa_merchant_code;
  signed_field_names = total_amount ∷ transaction_uuid ∷ product_code ∷ [];
  signature = hmac c.esewa_secret_key (signed_message amount number c.esewa_merchant_code);
}

-- initiateEsewaPayment
unfoldable pub initiate_esewa_payment : Hmac → Config → ℕ → ℕ → Result PaymentError Metadata
initiate_esewa_payment hmac c number amount =
    if not (is_some c.esewa_merchant_code) || not (is_some c.esewa_secret_key)
    then err credentials_missing
    else if not (is_some c.app_url) && not (is_some c.esewa_success_url)
    then err url_missing
    else ok (form (sign_esewa_data hmac c number amount))

-- What Khalti's initiate endpoint answers.
pub record Initiated : Type 0 where
  pub payment_url : Option ℕ
  pub pidx : Option ℕ

abbrev pidx_of : Option ℕ → Result PaymentError Metadata
pidx_of none = err provider_incomplete
pidx_of (some p) = ok (pidx p)

abbrev initiated : Reply Initiated → Result PaymentError Metadata
initiated none = err provider_failed
initiated (some a) = if is_some a.payment_url then pidx_of a.pidx else err provider_incomplete

-- initiateKhaltiPayment; the return URL has a default.
unfoldable pub initiate_khalti_payment : Config → Reply Initiated → Result PaymentError Metadata
initiate_khalti_payment c reply =
    if not (is_some c.khalti_secret_key) || not (is_some c.khalti_public_key)
    then err credentials_missing
    else if not (is_some c.khalti_website_url) && not (is_some c.app_url)
    then err url_missing
    else initiated reply

pub record PaymentData : Type 0 where
  pub provider : Provider
  pub amount_npr : ℕ
  pub currency : Option Currency
  pub order_reference : Option ℕ
  pub customer_id : Option ℕ
  pub store_id : ℕ
  pub idempotency_key : Option ℕ

-- "Provider-specific initialization"
abbrev pub initialized :
    Hmac → Config → Reply Initiated → ℕ → PaymentData → Provider → Result PaymentError Metadata
initialized hmac c reply number data_ esewa = initiate_esewa_payment hmac c number data_.amount_npr
initialized hmac c reply number data_ khalti = initiate_khalti_payment c reply
initialized hmac c reply number data_ _ = ok empty

abbrev pub new_intent : PaymentData → ℕ → ℕ → ℕ → Metadata → PaymentIntent
new_intent data_ id number today meta = record {
  id = id;
  intent_number = number;
  provider = data_.provider;
  amount_npr = data_.amount_npr;
  status = created;
  order_reference = data_.order_reference;
  customer_id = data_.customer_id;
  store_id = data_.store_id;
  provider_transaction_id = none;
  provider_metadata = meta;
  created_on = today;
  completed_at = none;
  refunded_at = none;
  idempotency_key = data_.idempotency_key;
}

abbrev pub intent_of_key : Option ℕ → Db → Option PaymentIntent
intent_of_key none db = none
intent_of_key (some key) db = head? (select (λ i. i.idempotency_key =? key) db.intents)

abbrev pub not_npr : Option Currency → Bool
not_npr none = false
not_npr (some c) = not (is_npr c)

abbrev pub lift : {A : Type 0} → Result PaymentError A → M Db PaymentError A
lift r db = (r, db)

abbrev pub insert_intent : PaymentData → ℕ → ℕ → ℕ → Metadata → M Db PaymentError PaymentIntent
insert_intent data_ id number today meta db = (
  ok (new_intent data_ id number today meta),
  record db { intents = db.intents ++ new_intent data_ id number today meta ∷ [] },
)

abbrev pub intent_once :
    Option PaymentIntent → M Db PaymentError PaymentIntent → M Db PaymentError PaymentIntent
intent_once (some i) create = return i
intent_once none create = create

-- createPaymentIntent; amounts below 0, and those that are not finite, are refused like 0. `id` and
-- `number` are those of a new row, and the limit is 1,000,000 rupees.
unfoldable pub create_payment_intent :
    Hmac → Config → Reply Initiated → PaymentData → ℕ → ℕ → ℕ → M Db PaymentError PaymentIntent
create_payment_intent hmac c reply data_ id number today =
    guard (not (leb data_.amount_npr 0)) amount_not_positive
    >> guard (not (ltb 100000000 data_.amount_npr)) amount_exceeds_limit
    >> guard (not (not_npr data_.currency)) only_npr
    >> lift (assert_provider_available c data_.provider)
    >> (λ db.
        intent_once (intent_of_key data_.idempotency_key db)
          (lift (initialized hmac c reply number data_ data_.provider)
            >>= insert_intent data_ id number today)
          db)

-- What a provider's status endpoint answers: its word for a completed payment, or another, or none;
-- the amount in paisa; and the number of the transaction.
pub record Looked : Type 0 where
  pub is_complete : Bool
  pub status : Option ℕ
  pub total_amount : Option ℕ
  pub transaction : Option ℕ

abbrev word : Bool → Option ℕ → IntentStatus
word true s = completed
word false none = pending
word false (some n) = other n

abbrev differs : Option ℕ → ℕ → Bool
differs none n = false
differs (some m) n = not (m == n)

abbrev esewa_looked : PaymentIntent → Reply Looked → Result PaymentError IntentStatus
esewa_looked i none = err provider_failed
esewa_looked i (some a) =
    if not (a.total_amount =? i.amount_npr)
    then err amount_mismatch
    else if differs a.transaction i.intent_number
    then err transaction_mismatch
    else ok (word a.is_complete a.status)

-- verifyEsewaStatus
unfoldable pub verify_esewa_status :
    Config → PaymentIntent → Reply Looked → Result PaymentError IntentStatus
verify_esewa_status c i reply =
    if not (is_some c.esewa_merchant_code) || not (is_some c.esewa_secret_key)
    then ok i.status
    else esewa_looked i reply

abbrev pub or_else : Option ℕ → Option ℕ → Option ℕ
or_else none b = b
or_else (some a) b = some a

abbrev metadata_pidx : Metadata → Option ℕ
metadata_pidx (pidx p) = some p
metadata_pidx _ = none

abbrev khalti_looked : PaymentIntent → ℕ → Reply Looked → Result PaymentError IntentStatus
khalti_looked i p none = err provider_failed
khalti_looked i p (some a) =
    if differs a.transaction p
    then err transaction_mismatch
    else if not (a.total_amount =? i.amount_npr)
    then err amount_mismatch
    else ok (word a.is_complete a.status)

abbrev khalti_known : PaymentIntent → Reply Looked → Option ℕ → Result PaymentError IntentStatus
khalti_known i reply none = err no_pidx
khalti_known i reply (some p) = khalti_looked i p reply

-- verifyKhaltiStatus
unfoldable pub verify_khalti_status :
    Config → PaymentIntent → Reply Looked → Result PaymentError IntentStatus
verify_khalti_status c i reply =
    if not (is_some c.khalti_secret_key)
    then ok i.status
    else khalti_known i reply
        (or_else (metadata_pidx i.provider_metadata) i.provider_transaction_id)

-- updatePaymentStatus
unfoldable pub update_payment_status : ℕ → IntentStatus → Db → Db
update_payment_status id status db = record db {
  intents = update (λ i. i.id == id) (λ i. record i { status = status }) db.intents;
}

abbrev pub find_intent : ℕ → Db → Option PaymentIntent
find_intent id db = head? (select (λ i. i.id == id) db.intents)

abbrev pub intent_found : Option PaymentIntent → Result PaymentError PaymentIntent
intent_found none = err intent_not_found
intent_found (some i) = ok i

abbrev verified : Config → PaymentIntent → Reply Looked → Provider → M Db PaymentError (Unit {0})
verified c i reply esewa =
    lift (verify_esewa_status c i reply) >>= λ s. modify (update_payment_status i.id s)
verified c i reply khalti =
    lift (verify_khalti_status c i reply) >>= λ s. modify (update_payment_status i.id s)
verified c i reply _ = return tt

-- verifyPaymentStatus
unfoldable pub verify_payment_status : Config → ℕ → Reply Looked → M Db PaymentError PaymentIntent
verify_payment_status c id reply db =
    ((λ d. (intent_found (find_intent id d), d)) >>= λ i.
    verified c i reply i.provider >> (λ d. (intent_found (find_intent id d), d)))
      db
