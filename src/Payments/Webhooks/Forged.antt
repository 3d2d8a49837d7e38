-- ===== src/Payments/Webhooks/Forged.antt =====
-- A webhook made of the payment form alone.
use modern_trade_website.Prelude.{
  ◌≡◌, refl, some, Option, true, ==_refl, ℕ, none, is_some, Bool, false, inl, ◌&&◌, leb, ◌||◌, inr,
  ltb, Bool-cases, not, sym, ap, ◌∙◌, ◌==◌, ◌∷◌, ◌++◌, [],
}
use modern_trade_website.Payments.Rows.{
  PaymentIntent, EsewaForm, Config, Db, completed, esewa, form,
}
use modern_trade_website.Payments.Webhooks.{
  same_code, process_esewa_webhook, process_by_provider, from_esewa, extract_signature,
  intent_of_number, Headers, calculate_webhook_signature, safe_equal, settle_intent, WebhookData,
  processed_ok, log_of, process_webhook, process_ids, settled, logged,
}
use modern_trade_website.Payments.Intents.{
  signed_message, sign_esewa_data, Hmac, initiate_esewa_payment, create_payment_intent, Initiated,
  assert_provider_available, intent_of_key, Reply, PaymentData, insert_intent, not_npr, new_intent,
}
use modern_trade_website.Prelude.Outcome.{ok, ok_injective}
use modern_trade_website.Orders.Web.Course.{answer}
use modern_trade_website.Prelude.Table.Find.{head?-select_append, find-update_self}

abbrev pub no_headers : Headers
no_headers = record { x_esewa_signature = none; x_khalti_signature = none; signature = none }

-- The fields of the form and its signature, under a transaction id of one's choice.
abbrev pub forged : EsewaForm → ℕ → WebhookData
forged f tx = from_esewa (record {
  transaction_id = some tx;
  pid = none;
  t_id = none;
  transaction_uuid = some f.transaction_uuid;
  transaction_code = none;
  is_complete = true;
  total_amount = some f.total_amount;
  product_code = f.product_code;
  signed_field_names = f.signed_field_names;
  other_fields = λ n. none;
  signature = some f.signature;
})

same_code_refl : (a : Option ℕ) → same_code a a ≡ true
same_code_refl none = refl
same_code_refl (some n) = ==_refl n

module _ (hmac : Hmac) (c : Config) (i : PaymentIntent) (secret : ℕ)
    (key : c.esewa_secret_key ≡ some secret) where
  abbrev the_form : EsewaForm
  the_form = sign_esewa_data hmac c i.intent_number i.amount_npr

  forged-valid :
      (tx : ℕ)
      → safe_equal
          (extract_signature no_headers (forged the_form tx))
          (calculate_webhook_signature hmac c (forged the_form tx))
        ≡ true
  unfolding calculate_webhook_signature sign_esewa_data
  forged-valid tx = rw key (
      ==_refl
        (hmac (some secret) (signed_message i.amount_npr i.intent_number c.esewa_merchant_code)))

  forged-settles :
      (tx log now : ℕ) (db : Db)
      → intent_of_number (some i.intent_number) db ≡ some i
      → process_by_provider c (forged the_form tx) none log now db
        ≡ (ok tt, settle_intent completed (some tx) now i log db)
  unfolding process_esewa_webhook sign_esewa_data
  forged-settles tx log now db h =
      rw (h, ==_refl i.amount_npr, same_code_refl c.esewa_merchant_code) refl

  settled-found :
      (tx log now : ℕ) (db : Db)
      → intent_of_number (some i.intent_number) db ≡ some i
      → intent_of_number (some i.intent_number) (settle_intent completed (some tx) now i log db)
        ≡ some (settled completed (some tx) now i)
  settled-found tx log now db h =
      find-update_self (λ (x : PaymentIntent). x.intent_number) i.intent_number
        (settled completed (some tx) now) db.intents (λ x. refl) h

  forged-processed :
      (tx log now : ℕ) (db : Db)
      → intent_of_number (some i.intent_number) db ≡ some i
      → log_of esewa tx db ≡ none
      → c.webhook_index ≡ true
      → let (answer, after) =
          process_ids hmac c (forged the_form tx) no_headers none log now tx tx db in
        (answer ≡ processed_ok)
        × (intent_of_number (some i.intent_number) after ≡ some (settled completed (some tx) now i))
  unfolding process_ids
  forged-processed tx log now db h unseen index =
      simp
        (
          index,
          unseen,
          forged-valid tx,
          forged-settles tx log now (logged (forged the_form tx) tx tx true log db) h,
        )
        (refl, settled-found tx log now db h)

no_secret : (o : Option ℕ) (b : Bool) → (not b || not (is_some o)) ≡ false → (k : ℕ) × (o ≡ some k)
no_secret (some k) b h = (k, refl)
no_secret none true h = cc h
no_secret none false h = cc h

-- A new eSewa intent carries the form that signEsewaData signs.
create-esewa :
    (hmac : Hmac) (c : Config) (reply : Reply Initiated) (data_ : PaymentData) (id number today : ℕ)
    (db : Db) (i : PaymentIntent)
    → data_.provider ≡ esewa
    → intent_of_key data_.idempotency_key db ≡ none
    → (create_payment_intent hmac c reply data_ id number today db).0 ≡ ok i
    → ((k : ℕ) × (c.esewa_secret_key ≡ some k))
      × (create_payment_intent hmac c reply data_ id number today db
          ≡ insert_intent data_ id number today
              (form (sign_esewa_data hmac c number data_.amount_npr))
              db)
unfolding create_payment_intent assert_provider_available initiate_esewa_payment
create-esewa hmac c reply data_ id number today db i p fresh h =
    elim (Bool-cases (leb data_.amount_npr 0)) [
      | inl a ↦ cc (rw a at h)
      | inr a ↦ elim (Bool-cases (ltb 100000000 data_.amount_npr)) [
        | inl b ↦ cc (rw (a, b) at h)
        | inr b ↦ elim (Bool-cases (not_npr data_.currency)) [
          | inl d ↦ cc (rw (a, b, d) at h)
          | inr d ↦ elim (Bool-cases (c.enable_electronic_payments)) [
            | inr e ↦ cc (rw (a, b, d, p, e) at h)
            | inl e ↦
                elim (Bool-cases
                  (not (is_some c.esewa_merchant_code) || not (is_some c.esewa_secret_key))) [
                    | inl f ↦ cc (rw (a, b, d, p, e, f) at h)
                    | inr f ↦
                        elim (Bool-cases
                          (not (is_some c.app_url) && not (is_some c.esewa_success_url))) [
                            | inl g ↦ cc (rw (a, b, d, p, e, f, fresh, g) at h)
                            | inr g ↦ (
                              no_secret c.esewa_secret_key (is_some c.esewa_merchant_code) f,
                              rw (a, b, d, p, e, f, fresh, g) refl,
                            )
                          ]
                  ]
          ]
        ]
      ]
    ]

-- In a database with the unique index that the INSERT into the webhook logs asks for, which the
-- repository's migrations do not make: for a new intent of eSewa, made by a createPaymentIntent that succeeded under no key or a new one and
-- with a new number: the form that the intent carries for the customer's browser suffices to complete
-- it. A webhook made of that form's fields and its signature, under a transaction id that is new, is
-- processed with success and sets the intent COMPLETED, whether or not eSewa was paid.
pub forged-completes :
    (hmac : Hmac) (c : Config) (reply : Reply Initiated) (data_ : PaymentData)
    (id number today tx log now : ℕ) (db : Db) (i : PaymentIntent)
    → data_.provider ≡ esewa
    → intent_of_key data_.idempotency_key db ≡ none
    → intent_of_number (some number) db ≡ none
    → log_of esewa tx db ≡ none
    → c.webhook_index ≡ true
    → (create_payment_intent hmac c reply data_ id number today db).0 ≡ ok i
    → let before = (create_payment_intent hmac c reply data_ id number today db).1 in
      (f : EsewaForm) × (i.provider_metadata ≡ form f)
      × (let (answer, after) =
            process_webhook hmac c (forged f tx) no_headers none log now before in
          (answer ≡ processed_ok)
          × (intent_of_number (some number) after ≡ some (settled completed (some tx) now i)))
unfolding process_webhook sign_esewa_data
forged-completes hmac c reply data_ id number today tx log now db i p fresh unused unseen index h =
    let ((secret, key), made) = create-esewa hmac c reply data_ id number today db i p fresh h in
    let row : new_intent data_ id number today
          (form (sign_esewa_data hmac c number data_.amount_npr))
        ≡ i =
      ok_injective (ap (λ r. r.0) (sym made) ∙ h) in
    let i0 =
      new_intent data_ id number today (form (sign_esewa_data hmac c number data_.amount_npr)) in
    let stored =
      head?-select_append (λ (i' : PaymentIntent). i'.intent_number == number) db.intents i0 unused
        (==_refl number) in
    rw (sym row, made)
      (
        sign_esewa_data hmac c number data_.amount_npr,
        refl,
        forged-processed hmac c i0 secret key tx log now
            (record db { intents = db.intents ++ i0 ∷ [] }) stored unseen index,
      )
