-- ===== src/Otp/Limits.antt =====
-- What a code that is accepted has been, and what a cleanup does to the limit of codes.
use modern_trade_website.Prelude.{
  All, refl, ap, ◌∙◌, leb, ◌∷◌, some, true, ◌&&◌, inr, ltb, inl, Bool, Option-cases, Option, arith,
  is_some, ℕ, false, ◌≡◌, ◌<◌, ◌+◌, List, Bool-cases, [],
}
use modern_trade_website.Otp.{
  check_resend_limits, OtpProvider, cleanup_expired_otps, is_consumable, spent, is_verified,
  is_refused, consume, current_otp, verify_otp, latest_first, max_attempts, Otp, is_for,
  is_candidate, create_otp,
}
use modern_trade_website.Prelude.Table.Order.{order_by-select-All}
use modern_trade_website.Prelude.Outcome.{Result-cases, ok}
use modern_trade_website.Prelude.Table.{update, count, select, order_by}
use modern_trade_website.Prelude.Table.Keyed.{head?-mem, mem-All}

candidate :
    (phone purpose now : ℕ) (t : List Otp) (o : Otp)
    → current_otp phone purpose now t ≡ some o
    → is_candidate phone purpose now o ≡ true
candidate phone purpose now t o h =
    let rows = order_by latest_first (select (is_candidate phone purpose now) t) in
    mem-All (λ (p : Otp). is_candidate phone purpose now p ≡ true) rows (head?-mem rows h)
      (order_by-select-All latest_first (is_candidate phone purpose now) t)

candidate_open :
    (phone purpose now : ℕ) (o : Otp)
    → is_candidate phone purpose now o ≡ true
    → (now < o.expires_at)
      × (is_some o.used_at ≡ false)
      × (o.phone_normalized ≡ phone)
      × (o.purpose ≡ purpose)
candidate_open phone purpose now o h =
    (ground (arith, h), ground (arith, h), ground (arith, h), ground (arith, h))

cleaned_up :
    (p : Otp → Bool) (now : ℕ) (t : List Otp)
    → All (λ o. p o ≡ true → o.expires_at < now) t
    → select p (cleanup_expired_otps now t) ≡ []
unfolding select cleanup_expired_otps
cleaned_up p now [] h = refl
cleaned_up p now (o ∷ os) (h, hs) = elim (Bool-cases (ltb o.expires_at now)) [
  | inl e ↦ rw e (cleaned_up p now os hs)
  | inr e ↦ elim (Bool-cases (p o)) [
    | inl k ↦ let late = h k in absurd (ground (arith, e, late))
    | inr k ↦ rw (e, k) (cleaned_up p now os hs)
  ]
]

none_counted : (p q : Otp → Bool) (t : List Otp) → select p t ≡ [] → count (λ o. p o && q o) t ≡ 0
unfolding select count
none_counted p q [] h = refl
none_counted p q (o ∷ os) h = elim (Bool-cases (p o)) [
  | inl e ↦ cc (rw e at h)
  | inr e ↦ let later = none_counted p q os (rw e at h) in rw e (omega (arith, later))
]

module _ (digest : ℕ → ℕ → ℕ → ℕ) where
  -- verifyOTP accepts a code only where there is a latest open code of the phone and the purpose, which
  -- has not expired, is unused and has had fewer than three attempts, and where the code is right: by
  -- Twilio's word for this phone and code where Twilio checks codes, else by the digest that was stored
  -- with the row. That row is then written as used, now and with one attempt more.
  pub verify_otp-valid :
      (p : OtpProvider) (phone purpose otp now : ℕ) (t : List Otp)
      → (verify_otp digest p phone purpose otp now t).0 ≡ ok true
      → (o : Otp) × (current_otp phone purpose now t ≡ some o)
        × (is_verified digest p.twilio_check phone purpose otp o ≡ ok true)
        × (o.attempt_count < 3)
        × (now < o.expires_at)
        × (is_some o.used_at ≡ false)
        × (o.phone_normalized ≡ phone)
        × (o.purpose ≡ purpose)
        × ((verify_otp digest p phone purpose otp now t).1
            ≡ update (is_consumable o.id now) (spent now) t)
  unfolding verify_otp consume
  verify_otp-valid p phone purpose otp now t h =
      elim (Bool-cases (is_refused p.has_demo_code phone)) [
        | inl a ↦ cc (rw a at h)
        | inr a ↦ elim (Option-cases (current_otp phone purpose now t)) [
          | inl e ↦ cc (rw (a, e) at h)
          | inr (o, e) ↦
              let (unexpired, unused, own, same) =
                candidate_open phone purpose now o (candidate phone purpose now t o e) in
              elim (Bool-cases (leb max_attempts o.attempt_count)) [
                | inl k ↦ cc (rw (a, e, k) at h)
                | inr k ↦
                    elim (Result-cases (is_verified digest p.twilio_check phone purpose otp o)) [
                      | inr (x, m) ↦ cc (rw (a, e, k, m) at h)
                      | inl (v, m) ↦ elim (Bool-cases v) [
                        | inr n ↦ cc (rw (a, e, k, m, n) at h)
                        | inl n ↦ (
                          o,
                          e,
                          m ∙ ap (λ b. ok b) n,
                          ground (arith, k),
                          unexpired,
                          unused,
                          own,
                          same,
                          rw (a, e, k, m, n) refl,
                        )
                      ]
                    ]
              ]
        ]
      ]

-- The limit of five codes an hour is lifted by a cleanup: once every code that was made for a phone and a
-- purpose has expired, however many there were in the hour, a createOTP after cleanupExpiredOTPs whose
-- delivery returns sends one more.
pub create_otp-after_cleanup :
    (digest : ℕ → ℕ → ℕ → ℕ) (id : ℕ) (customer : Option ℕ) (phone purpose otp now : ℕ)
    (t : List Otp)
    → All (λ o. is_for phone purpose o ≡ true → o.expires_at < now) t
    → (create_otp digest true id customer phone purpose otp now (cleanup_expired_otps now t)).0
      ≡ ok otp
unfolding create_otp check_resend_limits order_by
create_otp-after_cleanup digest id customer phone purpose otp now t h =
    let gone = cleaned_up (is_for phone purpose) now t h in
    let few =
      none_counted (is_for phone purpose) (λ o. ltb now (o.created_at + 3600000))
        (cleanup_expired_otps now t) gone in
    rw (gone, few) refl
