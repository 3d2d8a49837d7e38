-- ===== src/Prelude/Table/Find.antt =====
-- The row that a query by key finds first, before and after a write to the row of a key.
use modern_trade_website.Prelude.{
  ℕ, ◌≡◌, ◌≢◌, refl, true, false, List, [], ◌∷◌, Option, some, arith, ◌==◌, Bool-cases, inl, inr,
  head?, ◌++◌, Bool, none, some_injective, if◌then◌else◌, subst,
}
use modern_trade_website.Prelude.Table.{select, update}

module _ {A : Type 0} (key : A → ℕ) where
  -- SELECT … WHERE key = id, the first row
  abbrev pub find : ℕ → List A → Option A
  find id t = head? (select (λ x. key x == id) t)

  same_keys : (a b c : ℕ) → (a == b) ≡ true → (a == c) ≡ true → (c == b) ≡ true
  same_keys a b c h k = ground arith

  pub find-update_self :
      (id : ℕ) (f : A → A) (t : List A) {x : A}
      → ((y : A) → key (f y) ≡ key y)
      → find id t ≡ some x
      → find id (update (λ y. key y == id) f t) ≡ some (f x)
  unfolding select update
  find-update_self id f [] k h = cc
  find-update_self id f (y ∷ ys) {x} k h = elim (Bool-cases (key y == id)) [
    | inl e ↦ let here : some y ≡ some x = rw e at h in rw (e, k y, e) (cc)
    | inr e ↦ rw (e, e) (find-update_self id f ys k (rw e at h))
  ]

  pub find-update_ne :
      (id i : ℕ) (f : A → A) (t : List A)
      → ((y : A) → key (f y) ≡ key y)
      → i ≢ id
      → find id (update (λ y. key y == i) f t) ≡ find id t
  unfolding select update
  find-update_ne id i f [] k n = refl
  find-update_ne id i f (y ∷ ys) k n = elim (Bool-cases (key y == i)) [
    | inl e ↦
        let apart : (key y == id) ≡ false = ground arith in
        rw (e, k y, apart) (find-update_ne id i f ys k n)
    | inr e ↦ elim (Bool-cases (key y == id)) [
      | inl d ↦ rw (e, d) refl
      | inr d ↦ rw (e, d) (find-update_ne id i f ys k n)
    ]
  ]

  pub find-key : (id : ℕ) (t : List A) {x : A} → find id t ≡ some x → key x ≡ id
  unfolding select
  find-key id [] h = cc
  find-key id (y ∷ ys) {x} h = elim (Bool-cases (key y == id)) [
    | inl e ↦ let here : some y ≡ some x = rw e at h in ground (arith, e, here)
    | inr e ↦ find-key id ys (rw e at h)
  ]

-- A row appended to a table where none passes the test is the first to pass it.
pub head?-select_append :
    {A : Type 0} (p : A → Bool) (t : List A) (x : A)
    → head? (select p t) ≡ none
    → p x ≡ true
    → head? (select p (t ++ x ∷ [])) ≡ some x
unfolding select
head?-select_append p [] x h k = rw k refl
head?-select_append p (y ∷ ys) x h k = elim (Bool-cases (p y)) [
  | inl e ↦ cc (rw e at h)
  | inr e ↦ rw e (head?-select_append p ys x (rw e at h) k)
]

pub select-append :
    {A : Type 0} (p : A → Bool) (t u : List A) → select p (t ++ u) ≡ select p t ++ select p u
unfolding select
select-append p [] u = refl
select-append p (x ∷ xs) u = elim (Bool-cases (p x)) [
  | inl e ↦ rw (e, select-append p xs u) refl
  | inr e ↦ rw (e, select-append p xs u) refl
]

-- What a query found first it finds first in a longer table.
pub head?-append : {A : Type 0} (t u : List A) {x : A} → head? t ≡ some x → head? (t ++ u) ≡ some x
head?-append [] u h = cc
head?-append (y ∷ ys) u h = h

-- The first row of a query, after a write that keeps the query's test.
pub head?-select-update :
    {A : Type 0} (p q : A → Bool) (f : A → A) (t : List A) {x : A}
    → ((y : A) → p (f y) ≡ p y)
    → head? (select p t) ≡ some x
    → head? (select p (update q f t)) ≡ some (if q x then f x else x)
unfolding select update
head?-select-update p q f [] k h = cc
head?-select-update p q f (y ∷ ys) {x} k h = elim (Bool-cases (p y)) [
  | inl e ↦
      let same : y ≡ x = some_injective (rw e at h) in
      subst (λ z. head? (select p (update q f (y ∷ ys))) ≡ some (if q z then f z else z)) same
        (elim (Bool-cases (q y)) [ inl d ↦ rw (d, k y, e) refl | inr d ↦ rw (d, e) refl ])
  | inr e ↦ elim (Bool-cases (q y)) [
    | inl d ↦ rw (d, k y, e) (head?-select-update p q f ys k (rw e at h))
    | inr d ↦ rw (d, e) (head?-select-update p q f ys k (rw e at h))
  ]
]
