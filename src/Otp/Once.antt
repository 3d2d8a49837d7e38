-- ===== src/Otp/Once.antt =====
-- A code is used once, also where requests run at the same time.
use modern_trade_website.Otp.{
  mark_otp_used, miss, spent, is_consumable, is_unused, Otp, missed, consume,
}
use modern_trade_website.Prelude.{
  arith, refl, some, ℕ, ==_iff, All, ◌≡◌, List, Bool-cases, Bool, ◌==◌, inr, inl, false, ◌+◌, ◌&&◌,
  ◌∷◌, [], if◌then◌else◌, subst, &&_right, ◌≢◌, ◌≤◌, All-imp, true, ltb,
}
use modern_trade_website.Prelude.Table.{count, Distinct, update}
use modern_trade_website.Prelude.Table.Keyed.{All-update-All, Distinct-update}

-- A write of some request to the row of a code: requests that run at the same time have their
-- writes in some order, each at its own instant.
pub data Write : Type 0 where
  right : (id now : ℕ) → Write
  wrong : (id now : ℕ) → Write
  mark : (id now : ℕ) → Write

abbrev pub written : Write → List Otp → List Otp
written (right id now) t = (consume id now t).1
written (wrong id now) t = miss id now t
written (mark id now) t = mark_otp_used id now t

-- Whether the write lets a request with the code `id` in.
abbrev pub lets_in : ℕ → Write → List Otp → Bool
lets_in id (right i now) t = i == id && (consume i now t).0
lets_in id _ t = false

-- How many of the writes do.
unfoldable pub admitted : ℕ → List Write → List Otp → ℕ
admitted id [] t = 0
admitted id (w ∷ ws) t = (if lets_in id w t then 1 else 0) + admitted id ws (written w t)

abbrev IsShut : ℕ → List Otp → Type 0
IsShut id = All (λ o. is_unused id o ≡ false)

written-IsShut : (id : ℕ) (w : Write) (t : List Otp) → IsShut id t → IsShut id (written w t)
unfolding consume miss mark_otp_used
written-IsShut id (right i now) t h =
    All-update-All (λ o. is_unused id o ≡ false) (is_consumable i now) (spent now) t
      (λ o e. ground arith) h
written-IsShut id (wrong i now) t h =
    All-update-All (λ o. is_unused id o ≡ false) (is_unused i) (missed now) t (λ o e. ground arith)
      h
written-IsShut id (mark i now) t h =
    All-update-All (λ o. is_unused id o ≡ false) (λ o. o.id == i)
      (λ o. record o { used_at = some now }) t (λ o e. ground arith) h

none_consumable : (id now : ℕ) (t : List Otp) → IsShut id t → count (is_consumable id now) t ≡ 0
unfolding count
none_consumable id now [] h = refl
none_consumable id now (o ∷ os) h = rw h.0 (omega (arith, none_consumable id now os h.1))

shut_out : (id : ℕ) (w : Write) (t : List Otp) → IsShut id t → lets_in id w t ≡ false
unfolding consume
shut_out id (right i now) t h = elim (Bool-cases (i == id)) [
  | inl e ↦ let same = (==_iff i id).0 e in rw (e, same, none_consumable id now t h) refl
  | inr e ↦ rw e refl
]
shut_out id (wrong i now) t h = refl
shut_out id (mark i now) t h = refl

none_admitted : (id : ℕ) (ws : List Write) (t : List Otp) → IsShut id t → admitted id ws t ≡ 0
unfolding admitted
none_admitted id [] t h = refl
none_admitted id (w ∷ ws) t h =
    rw (shut_out id w t h)
      (omega (arith, none_admitted id ws (written w t) (written-IsShut id w t h)))

apart : (id : ℕ) (o p : Otp) → (o.id == id) ≡ true → p.id ≢ o.id → is_unused id p ≡ false
apart id o p e n = ground arith

consumable_head :
    (id now : ℕ) (o : Otp) (os : List Otp)
    → count (is_consumable id now) os ≡ 0
    → ltb 0 (count (is_consumable id now) (o ∷ os)) ≡ true
    → is_consumable id now o ≡ true
unfolding count
consumable_head id now o os none_left h = elim (Bool-cases (is_consumable id now o)) [
  | inl e ↦ e
  | inr e ↦ cc (rw (e, none_left) at h)
]

other_unused : (id : ℕ) (o : Otp) → (o.id == id) ≡ false → is_unused id o ≡ false
other_unused id o e = rw e refl

rest_consumable :
    (id now : ℕ) (o : Otp) (os : List Otp)
    → (o.id == id) ≡ false
    → ltb 0 (count (is_consumable id now) (o ∷ os)) ≡ true
    → ltb 0 (count (is_consumable id now) os) ≡ true
unfolding count
rest_consumable id now o os e h = ground (arith, rw e at h)

consume-IsShut :
    (id now : ℕ) (t : List Otp)
    → Distinct (λ o. o.id) t
    → ltb 0 (count (is_consumable id now) t) ≡ true
    → IsShut id (update (is_consumable id now) (spent now) t)
unfolding update
consume-IsShut id now [] d h = tt
consume-IsShut id now (o ∷ os) d h = elim (Bool-cases (o.id == id)) [
  | inl e ↦
      let rest =
        All-imp (λ (p : Otp). p.id ≢ o.id) (λ (p : Otp). is_unused id p ≡ false)
          (λ p n. apart id o p e n) os d.0 in
      let met = consumable_head id now o os (none_consumable id now os rest) h in
      (
        rw met (ground arith),
        All-update-All (λ (p : Otp). is_unused id p ≡ false) (is_consumable id now) (spent now) os
            (λ p k. ground arith) rest,
      )
  | inr e ↦
      let later = consume-IsShut id now os d.1 (rest_consumable id now o os e h) in
      rw e (other_unused id o e, later)
]

written-Distinct :
    (w : Write) (t : List Otp) → Distinct (λ o. o.id) t → Distinct (λ o. o.id) (written w t)
unfolding consume miss mark_otp_used
written-Distinct (right i now) t d =
    Distinct-update (λ (o : Otp). o.id) (is_consumable i now) (spent now) t (λ o. refl) d
written-Distinct (wrong i now) t d =
    Distinct-update (λ (o : Otp). o.id) (is_unused i) (missed now) t (λ o. refl) d
written-Distinct (mark i now) t d =
    Distinct-update (λ (o : Otp). o.id) (λ o. o.id == i) (λ o. record o { used_at = some now }) t
      (λ o. refl) d

let_in-IsShut :
    (id : ℕ) (w : Write) (t : List Otp)
    → Distinct (λ o. o.id) t
    → lets_in id w t ≡ true
    → IsShut id (written w t)
unfolding consume
let_in-IsShut id (right i now) t d h = elim (Bool-cases (i == id)) [
  | inl e ↦
      let same = (==_iff i id).0 e in
      let met = &&_right (i == id) (ltb 0 (count (is_consumable i now) t)) h in
      subst (λ j. IsShut j (update (is_consumable i now) (spent now) t)) same
        (consume-IsShut i now t d met)
  | inr e ↦ cc (rw e at h)
]
let_in-IsShut id (wrong i now) t d h = cc
let_in-IsShut id (mark i now) t d h = cc

-- In a table with distinct ids, however the writes of requests that run at the same time are
-- ordered, and at whatever instants, a code lets at most one request in.
pub admitted-once :
    (id : ℕ) (ws : List Write) (t : List Otp) → Distinct (λ o. o.id) t → admitted id ws t ≤ 1
unfolding admitted
admitted-once id [] t d = omega arith
admitted-once id (w ∷ ws) t d = elim (Bool-cases (lets_in id w t)) [
  | inl e ↦ rw e (omega (arith, none_admitted id ws (written w t) (let_in-IsShut id w t d e)))
  | inr e ↦ rw e (omega (arith, admitted-once id ws (written w t) (written-Distinct w t d)))
]
