-- ===== src/Prelude/Outcome.antt =====
-- Outcomes of database code: a result, and the tables as the call leaves them.
use modern_trade_website.Prelude.{Bool, true, false, ◌≡◌, refl, ◌⊎◌, inl, inr}

pub data Result (E A : Type 0) : Type 0 where
  ok : A → Result E A
  err : E → Result E A

-- An operation on the tables S. What it wrote before it threw stays written.
abbrev pub M : Type 0 → Type 0 → Type 0 → Type 0
M S E A = S → Result E A × S

abbrev pub continue : {S E A B : Type 0} → Result E A × S → (A → M S E B) → Result E B × S
continue (ok a, s) f = f a s
continue (err e, s) f = (err e, s)

infixl 5 ◌>>=◌ ◌>>◌
abbrev pub ◌>>=◌ : {S E A B : Type 0} → M S E A → (A → M S E B) → M S E B
◌>>=◌ m f s = continue (m s) f

abbrev pub ◌>>◌ : {S E B : Type 0} → M S E (Unit {0}) → M S E B → M S E B
◌>>◌ m k s = continue (m s) (λ _. k)

abbrev pub return : {S E A : Type 0} → A → M S E A
return a s = (ok a, s)

abbrev pub throw : {S E A : Type 0} → E → M S E A
throw e s = (err e, s)

abbrev pub get : {S E : Type 0} → M S E S
get s = (ok s, s)

-- A statement that writes.
abbrev pub modify : {S E : Type 0} → (S → S) → M S E (Unit {0})
modify f s = (ok tt, f s)

abbrev pub guard : {S E : Type 0} → Bool → E → M S E (Unit {0})
guard true e s = (ok tt, s)
guard false e s = (err e, s)

abbrev settle : {S E A : Type 0} → S → Result E A × S → Result E A × S
settle before (ok a, after) = (ok a, after)
settle before (err e, after) = (err e, before)

-- BEGIN, the body, COMMIT; ROLLBACK where the body throws.
abbrev pub transaction : {S E A : Type 0} → M S E A → M S E A
transaction m s = settle s (m s)

abbrev pub is_ok : {E A : Type 0} → Result E A → Bool
is_ok (ok a) = true
is_ok (err e) = false

module _ {S E : Type 0} where
  continue-ok :
      {A B : Type 0} (r : Result E A × S) (f : A → M S E B) (b : B)
      → (continue r f).0 ≡ ok b
      → (a : A) × (r.0 ≡ ok a) × (continue r f ≡ f a r.1)
  continue-ok (ok a, s) f b h = (a, refl, refl)
  continue-ok (err e, s) f b h = cc

  settle-ok :
      {A : Type 0} (before : S) (r : Result E A × S) (a : A)
      → (settle before r).0 ≡ ok a
      → settle before r ≡ r
  settle-ok before (ok a, s) b h = refl
  settle-ok before (err e, s) b h = cc

  settle-err :
      {A : Type 0} (before : S) (r : Result E A × S) (e : E)
      → (settle before r).0 ≡ err e
      → (settle before r).1 ≡ before
  settle-err before (ok a, s) e h = cc
  settle-err before (err d, s) e h = refl

  -- A chain that ends well went well at its first link, and is the rest of the chain from there.
  pub then-ok :
      {A B : Type 0} (m : M S E A) (f : A → M S E B) (s : S) (b : B)
      → (continue (m s) f).0 ≡ ok b
      → (a : A) × ((m s).0 ≡ ok a) × (continue (m s) f ≡ f a (m s).1)
  then-ok m f s b h = continue-ok (m s) f b h

  pub transaction-ok :
      {A : Type 0} (m : M S E A) (s : S) (a : A)
      → (transaction m s).0 ≡ ok a
      → transaction m s ≡ m s
  transaction-ok m s a h = settle-ok s (m s) a h

  pub transaction-err :
      {A : Type 0} (m : M S E A) (s : S) (e : E)
      → (transaction m s).0 ≡ err e
      → (transaction m s).1 ≡ s
  transaction-err m s e h = settle-err s (m s) e h

pub ok_injective : {E A : Type 0} {x y : A} → ◌≡◌ {A = Result E A} (ok x) (ok y) → x ≡ y
ok_injective h = cc

-- To split on an answer and keep the equation.
pub Result-cases :
    {E A : Type 0} (r : Result E A) → ((a : A) × (r ≡ ok a)) ⊎ ((e : E) × (r ≡ err e))
Result-cases (ok a) = inl (a, refl)
Result-cases (err e) = inr (e, refl)
