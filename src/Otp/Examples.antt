-- ===== src/Otp/Examples.antt =====
-- One telephone's codes, at concrete tables.
use modern_trade_website.Otp.Limits.{verify_otp-valid, create_otp-after_cleanup}
use modern_trade_website.Otp.{
  check_resend_limits, current_otp, verify_otp, Otp, create_otp, consume, OtpProvider, is_verified,
  cleanup_expired_otps, is_consumable, spent, too_many_requests,
}
use modern_trade_website.Otp.Once.{admitted, right, Write, admitted-once}
use modern_trade_website.Prelude.{
  ◌==◌, ◌∷◌, some, true, arith, is_some, ℕ, false, ◌≡◌, ◌≤◌, ◌<◌, ◌+◌, refl, List, ◌*◌, none, [],
}
use modern_trade_website.Prelude.Outcome.{ok, err}
use modern_trade_website.Prelude.Table.{update, count, select, insert_by, order_by}

abbrev digest : ℕ → ℕ → ℕ → ℕ
digest phone purpose otp = phone * 1000 + purpose * 100 + otp

abbrev stored : Otp
stored = record {
  id = 1;
  customer_id = some 3;
  phone_normalized = 98;
  otp_code = 98242;
  purpose = 2;
  attempt_count = 1;
  created_at = 1000;
  expires_at = 301000;
  used_at = none;
}

abbrev codes : List Otp
codes = stored ∷ []

-- No Twilio and no demonstration.
abbrev by_digest : OtpProvider
by_digest = record { twilio_check = none; has_demo_code = none }

-- Twilio approves the code 5 whatever was stored.
abbrev by_twilio : OtpProvider
by_twilio = record { twilio_check = some (λ phone code. some (code == 5)); has_demo_code = none }

accepted : (verify_otp digest by_twilio 98 2 5 2000 codes).0 ≡ ok true
unfolding verify_otp order_by insert_by select consume count
accepted = refl

not_by_digest : (verify_otp digest by_digest 98 2 5 2000 codes).0 ≡ ok false
unfolding verify_otp order_by insert_by select consume count
not_by_digest = refl

verify_otp-valid_example :
    (o : Otp) × (current_otp 98 2 2000 codes ≡ some o)
    × (is_verified digest by_twilio.twilio_check 98 2 5 o ≡ ok true)
    × (o.attempt_count < 3)
    × (2000 < o.expires_at)
    × (is_some o.used_at ≡ false)
    × (o.phone_normalized ≡ 98)
    × (o.purpose ≡ 2)
    × ((verify_otp digest by_twilio 98 2 5 2000 codes).1
        ≡ update (is_consumable o.id 2000) (spent 2000) codes)
verify_otp-valid_example = verify_otp-valid digest by_twilio 98 2 5 2000 codes accepted

-- Five codes within the hour, a minute apart, as createOTP leaves them.
abbrev five_codes : List Otp
five_codes =
    stored
    ∷ record stored { id = 2; created_at = 61000; expires_at = 361000 }
    ∷ record stored { id = 3; created_at = 121000; expires_at = 421000 }
    ∷ record stored { id = 4; created_at = 181000; expires_at = 481000 }
    ∷ record stored { id = 5; created_at = 241000; expires_at = 541000 }
    ∷ []

refused_before : (create_otp digest true 6 none 98 2 77 600000 five_codes).0 ≡ err too_many_requests
unfolding create_otp check_resend_limits order_by insert_by select count
refused_before = refl

create_otp-after_cleanup_example :
    (create_otp digest true 6 none 98 2 77 600000 (cleanup_expired_otps 600000 five_codes)).0
    ≡ ok 77
create_otp-after_cleanup_example =
    create_otp-after_cleanup digest 6 none 98 2 77 600000 five_codes (
      λ e. omega arith,
      (λ e. omega arith, (λ e. omega arith, (λ e. omega arith, (λ e. omega arith, tt)))),
    )

abbrev race : List Write
race = right 1 2000 ∷ right 1 2001 ∷ []

admitted-once_example : admitted 1 race codes ≤ 1
admitted-once_example = admitted-once 1 race codes (omega arith)
