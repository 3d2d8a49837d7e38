-- ===== src/Otp.antt =====
-- One-time passwords: OTPService of backend/src/services/otpService.ts over the table customer_otp. The
-- keyed digest of node's crypto, the delivery of a code, the check by Twilio and the telephones that
-- have a demonstration code are parameters.
pub mod Once
pub mod Limits
mod Examples
use modern_trade_website.Prelude.{
  leb, not, ◌++◌, some, ℕ, is_some, head?, List, Bool, ◌==◌, ltb, Option, false, ◌+◌, ◌&&◌, none,
  ◌∷◌, [], if◌then◌else◌,
}
use modern_trade_website.Orders.Rows.{code, delivered}
use modern_trade_website.Inventory.Rows.{expired}
use modern_trade_website.Prelude.Table.{update, order_by, count, select}
use modern_trade_website.Prelude.Outcome.{err, ok, continue, Result}

-- MAX_ATTEMPTS
abbrev pub max_attempts : ℕ
max_attempts = 3

pub record Otp : Type 0 where
  pub id : ℕ
  pub customer_id : Option ℕ
  pub phone_normalized : ℕ
  pub otp_code : ℕ
  pub purpose : ℕ
  pub attempt_count : ℕ
  pub created_at : ℕ
  pub expires_at : ℕ
  pub used_at : Option ℕ

pub data OtpError : Type 0 where
  too_soon too_many_requests delivery_failed check_unavailable : OtpError

abbrev pub latest_first : Otp → Otp → Bool
latest_first o p = leb p.created_at o.created_at

abbrev pub is_for : ℕ → ℕ → Otp → Bool
is_for phone purpose o = o.phone_normalized == phone && o.purpose == purpose

abbrev pub sent_recently : ℕ → Option Otp → Bool
sent_recently now none = false
sent_recently now (some o) = ltb now (o.created_at + 60000)

-- checkResendLimits
unfoldable pub check_resend_limits : ℕ → ℕ → ℕ → List Otp → Result OtpError (Unit {0})
check_resend_limits phone purpose now t =
    if sent_recently now (head? (order_by latest_first (select (is_for phone purpose) t)))
    then err too_soon
    else if leb 5 (count (λ o. is_for phone purpose o && ltb now (o.created_at + 3600000)) t)
    then err too_many_requests
    else ok tt

-- WHERE id = $1 AND used_at IS NULL
abbrev pub is_unused : ℕ → Otp → Bool
is_unused id o = o.id == id && not (is_some o.used_at)

-- AND expires_at > CURRENT_TIMESTAMP AND attempt_count < $2
abbrev pub is_consumable : ℕ → ℕ → Otp → Bool
is_consumable id now o =
    is_unused id o && (ltb now o.expires_at && ltb o.attempt_count max_attempts)

abbrev pub missed : ℕ → Otp → Otp
missed now o = record o {
  attempt_count = o.attempt_count + 1;
  used_at = if leb max_attempts (o.attempt_count + 1) then some now else o.used_at;
}

-- The UPDATE after a wrong code.
unfoldable pub miss : ℕ → ℕ → List Otp → List Otp
miss id now = update (is_unused id) (missed now)

abbrev pub spent : ℕ → Otp → Otp
spent now o = record o { attempt_count = o.attempt_count + 1; used_at = some now }

-- The UPDATE after a right code: whether it met a row, and the table after it.
unfoldable pub consume : ℕ → ℕ → List Otp → Bool × List Otp
consume id now t =
    (ltb 0 (count (is_consumable id now) t), update (is_consumable id now) (spent now) t)

-- markOTPUsed
unfoldable pub mark_otp_used : ℕ → ℕ → List Otp → List Otp
mark_otp_used id now = update (λ o. o.id == id) (λ o. record o { used_at = some now })

abbrev pub is_candidate : ℕ → ℕ → ℕ → Otp → Bool
is_candidate phone purpose now o =
    is_for phone purpose o && (not (is_some o.used_at) && ltb now o.expires_at)

-- cleanupExpiredOTPs
unfoldable pub cleanup_expired_otps : ℕ → List Otp → List Otp
cleanup_expired_otps now = select (λ o. not (ltb o.expires_at now))

-- The most recent code that is unused and has not expired.
abbrev pub current_otp : ℕ → ℕ → ℕ → List Otp → Option Otp
current_otp phone purpose now t =
    head? (order_by latest_first (select (is_candidate phone purpose now) t))

-- What SMS_PROVIDER selects. Under `twilio_verify`, outside of tests, Twilio checks the code of a
-- telephone, or the check throws; under `demo` only the telephones with a demonstration code are served.
pub record OtpProvider : Type 0 where
  pub twilio_check : Option (ℕ → ℕ → Option Bool)
  pub has_demo_code : Option (ℕ → Bool)

-- The UPDATE of createOTP where the delivery throws.
abbrev pub is_undelivered : ℕ → ℕ → Otp → Bool
is_undelivered phone stored o =
    o.phone_normalized == phone && (o.otp_code == stored && not (is_some o.used_at))

abbrev pub is_refused : Option (ℕ → Bool) → ℕ → Bool
is_refused none phone = false
is_refused (some has_code) phone = not (has_code phone)

abbrev pub checked_by_twilio : Option Bool → Result OtpError Bool
checked_by_twilio none = err check_unavailable
checked_by_twilio (some b) = ok b

module _ (digest : ℕ → ℕ → ℕ → ℕ) where
  -- createOTP; `id` is the id of the new row, `code` the generated or the demonstration code (where a
  -- telephone has none, the call throws before this), and `sends` whether the delivery returns.
  unfoldable pub create_otp :
      Bool → ℕ → Option ℕ → ℕ → ℕ → ℕ → ℕ → List Otp → Result OtpError ℕ × List Otp
  create_otp sends id customer phone purpose code now t =
      let stored = digest phone purpose code in
      let row : Otp = record {
        id = id;
        customer_id = customer;
        phone_normalized = phone;
        otp_code = stored;
        purpose = purpose;
        attempt_count = 0;
        created_at = now;
        expires_at = now + 300000;
        used_at = none;
      } in
      continue (check_resend_limits phone purpose now t, t)
        (λ u s. if sends then (ok code, s ++ row ∷ []) else (
          err delivery_failed,
          update (is_undelivered phone stored) (λ o. record o { used_at = some now })
              (s ++ row ∷ []),
        ))

  -- Whether a code is the one of a row, by Twilio or by the digest.
  abbrev pub is_verified : Option (ℕ → ℕ → Option Bool) → ℕ → ℕ → ℕ → Otp → Result OtpError Bool
  is_verified none phone purpose code o = ok (o.otp_code == digest phone purpose code)
  is_verified (some check) phone purpose code o = checked_by_twilio (check phone code)

  abbrev pub verified_row :
      OtpProvider → ℕ → ℕ → ℕ → ℕ → List Otp → Option Otp → Result OtpError Bool × List Otp
  verified_row p phone purpose code now t none = (ok false, t)
  verified_row p phone purpose code now t (some o) =
      let done =
        continue (is_verified p.twilio_check phone purpose code o, t)
          (λ verified s.
            if verified
            then (ok (consume o.id now s).0, (consume o.id now s).1)
            else (ok false, miss o.id now s)) in
      if leb max_attempts o.attempt_count then (ok false, mark_otp_used o.id now t) else done

  -- verifyOTP: `valid` of its answer, where it does not throw.
  unfoldable pub verify_otp :
      OtpProvider → ℕ → ℕ → ℕ → ℕ → List Otp → Result OtpError Bool × List Otp
  verify_otp p phone purpose code now t =
      let answer = verified_row p phone purpose code now t (current_otp phone purpose now t) in
      if is_refused p.has_demo_code phone then (ok false, t) else answer
