-- ===== src/Prelude/Table/Keyed.antt =====
-- Writes to one row of a table, found by its key.
use mathlib.Core.List.{Memᴰ}
use modern_trade_website.Prelude.{
  ℕ, ◌≡◌, ◌≢◌, refl, sym, ap, ◌∙◌, subst, Bool, true, false, List, [], ◌∷◌, ◌++◌, ◌&&◌, arith,
  if◌then◌else◌, ◌==◌, ==_iff, ==_refl, Bool-cases, inl, inr, All, head?, some, ◌+◌,
}
use modern_trade_website.Prelude.Int.{ℤ, pos, ◌+ℤ◌, int_laws, parts_of_eq}
use modern_trade_website.Prelude.Table.{update, sum_ℤ, select, Distinct, sum}

module _ {A : Type 0} where
  pub mem-All {ℓ} : (P : A → Type ℓ) (t : List A) {b : A} → Memᴰ b t → All P t → P b
  mem-All P [] m h = elim m [ ]
  mem-All P (x ∷ xs) (Memᴰ.head e) h = subst P (sym e) h.0
  mem-All P (x ∷ xs) (Memᴰ.tail m) h = mem-All P xs m h.1

  -- A write keeps what each written row keeps.
  pub All-update-All {ℓ} :
      (P : A → Type ℓ) (p : A → Bool) (f : A → A) (t : List A)
      → ((x : A) → P x → P (f x))
      → All P t
      → All P (update p f t)
  unfolding update
  All-update-All P p f [] k h = tt
  All-update-All P p f (x ∷ xs) k h = elim (Bool-cases (p x)) [
    | inl e ↦ rw e (k x h.0, All-update-All P p f xs k h.1)
    | inr e ↦ rw e (h.0, All-update-All P p f xs k h.1)
  ]

  pub All-select {ℓ} : (P : A → Type ℓ) (p : A → Bool) (t : List A) → All P t → All P (select p t)
  unfolding select
  All-select P p [] h = tt
  All-select P p (x ∷ xs) h = elim (Bool-cases (p x)) [
    | inl e ↦ rw e (h.0, All-select P p xs h.1)
    | inr e ↦ rw e (All-select P p xs h.1)
  ]

  -- What is selected passes the test.
  pub select-All : (p : A → Bool) (t : List A) → All (λ x. p x ≡ true) (select p t)
  unfolding select
  select-All p [] = tt
  select-All p (x ∷ xs) = elim (Bool-cases (p x)) [
    | inl e ↦ rw e (e, select-All p xs)
    | inr e ↦ rw e (select-All p xs)
  ]

  pub All-mem_tail :
      (x : A) (xs ys : List A) → All (λ y. Memᴰ y xs) ys → All (λ y. Memᴰ y (x ∷ xs)) ys
  All-mem_tail x xs [] h = tt
  All-mem_tail x xs (y ∷ ys) h = (Memᴰ.tail h.0, All-mem_tail x xs ys h.1)

  pub All-mem_self : (xs : List A) → All (λ y. Memᴰ y xs) xs
  All-mem_self [] = tt
  All-mem_self (x ∷ xs) = (Memᴰ.head refl, All-mem_tail x xs xs (All-mem_self xs))

==_ne : (a b : ℕ) → a ≢ b → (a == b) ≡ false
==_ne a b n = ground arith

module _ {A : Type 0} where
  pub head?-mem : (xs : List A) {x : A} → head? xs ≡ some x → Memᴰ x xs
  head?-mem [] e = cc
  head?-mem (y ∷ ys) e = Memᴰ.head (cc)

  -- The first row of a query is a row of the table, and passes the test.
  pub first-mem :
      (p : A → Bool) (t : List A) {b : A} → head? (select p t) ≡ some b → Memᴰ b t × (p b ≡ true)
  first-mem p t e =
      let m = head?-mem (select p t) e in
      (
        mem-All (λ b. Memᴰ b t) (select p t) m (All-select (λ b. Memᴰ b t) p t (All-mem_self t)),
        mem-All (λ b. p b ≡ true) (select p t) m (select-All p t),
      )

  pub sum_ℤ-append :
      (p : A → Bool) (g : A → ℤ) (xs ys : List A)
      → sum_ℤ p g (xs ++ ys) ≡ sum_ℤ p g xs +ℤ sum_ℤ p g ys
  unfolding sum_ℤ
  sum_ℤ-append p g [] ys = omega int_laws
  sum_ℤ-append p g (x ∷ xs) ys = omega (int_laws, parts_of_eq (sum_ℤ-append p g xs ys))

  -- Of the rows that pass p, those that fail q and those that pass it.
  pub sum_ℤ-select :
      (p q : A → Bool) (g : A → ℤ) (t : List A)
      → sum_ℤ p g (select (λ x. if q x then false else true) t) +ℤ sum_ℤ (λ x. q x && p x) g t
        ≡ sum_ℤ p g t
  unfolding sum_ℤ select
  sum_ℤ-select p q g [] = omega int_laws
  sum_ℤ-select p q g (x ∷ xs) =
      let later = parts_of_eq (sum_ℤ-select p q g xs) in
      elim (Bool-cases (q x)) [
        | inl e ↦ rw e (omega (int_laws, later))
        | inr e ↦ rw e (omega (int_laws, later))
      ]

module _ {A : Type 0} (key : A → ℕ) where
  pub Distinct-update :
      (p : A → Bool) (f : A → A) (t : List A)
      → ((x : A) → key (f x) ≡ key x)
      → Distinct key t
      → Distinct key (update p f t)
  unfolding update
  Distinct-update p f [] k h = tt
  Distinct-update p f (x ∷ xs) k h = (
    All-update-All (λ y. key y ≢ key (if p x then f x else x)) p f xs (λ y n e. n (sym (k y) ∙ e))
        (subst (λ i. All (λ y. key y ≢ i) xs) (sym (same (p x))) h.0),
    Distinct-update p f xs k h.1,
  )
    where
      same : (b : Bool) → key (if b then f x else x) ≡ key x
      same true = k x
      same false = refl

  pub Distinct-select : (p : A → Bool) (t : List A) → Distinct key t → Distinct key (select p t)
  unfolding select
  Distinct-select p [] h = tt
  Distinct-select p (x ∷ xs) h = elim (Bool-cases (p x)) [
    | inl e ↦ rw e (All-select (λ y. key y ≢ key x) p xs h.0, Distinct-select p xs h.1)
    | inr e ↦ rw e (Distinct-select p xs h.1)
  ]

  -- No row has the key: nothing is written.
  pub update_absent :
      (i : ℕ) (f : A → A) (t : List A) → All (λ y. key y ≢ i) t → update (λ x. key x == i) f t ≡ t
  unfolding update
  update_absent i f [] h = refl
  update_absent i f (x ∷ xs) h = ground (arith, update_absent i f xs h.1, ==_iff (key x) i, h.0)

  pub mem-update_ne :
      (i : ℕ) (f : A → A) (t : List A) {r : A}
      → Memᴰ r t
      → key r ≢ i
      → Memᴰ r (update (λ x. key x == i) f t)
  unfolding update
  mem-update_ne i f [] m n = elim m [ ]
  mem-update_ne i f (x ∷ xs) {r} (Memᴰ.head e) n =
      Memᴰ.head (ground (arith, ap key e, ==_iff (key x) i))
  mem-update_ne i f (x ∷ xs) (Memᴰ.tail m) n = Memᴰ.tail (mem-update_ne i f xs m n)

  pub mem-update_self :
      (f : A → A) (t : List A) {b : A} → Memᴰ b t → Memᴰ (f b) (update (λ x. key x == key b) f t)
  unfolding update
  mem-update_self f [] m = elim m [ ]
  mem-update_self f (x ∷ xs) {b} (Memᴰ.head e) =
      subst (λ y. Memᴰ (f y) (update (λ z. key z == key y) f (x ∷ xs))) (sym e)
        (rw (==_refl (key x)) (Memᴰ.head refl))
  mem-update_self f (x ∷ xs) (Memᴰ.tail m) = Memᴰ.tail (mem-update_self f xs m)

  -- A query by the key of a row finds that row first.
  pub head?-select_key :
      (t : List A) {b : A}
      → Memᴰ b t
      → Distinct key t
      → head? (select (λ x. key x == key b) t) ≡ some b
  unfolding select
  head?-select_key [] m d = elim m [ ]
  head?-select_key (x ∷ xs) {b} (Memᴰ.head e) d =
      subst (λ y. head? (select (λ z. key z == key y) (x ∷ xs)) ≡ some y) (sym e)
        (rw (==_refl (key x)) refl)
  head?-select_key (x ∷ xs) {b} (Memᴰ.tail m) d =
      rw (==_ne (key x) (key b) (λ e. mem-All (λ y. key y ≢ key x) xs m d.0 (sym e)))
        (head?-select_key xs m d.1)

  -- One row is written, the row that was read.
  pub All-update {ℓ} :
      (P : A → Type ℓ) (f : A → A) (t : List A) {b : A}
      → Memᴰ b t
      → Distinct key t
      → All P t
      → P (f b)
      → All P (update (λ x. key x == key b) f t)
  unfolding update
  All-update P f [] m d h k = elim m [ ]
  All-update P f (x ∷ xs) {b} (Memᴰ.head e) d h k =
      subst (λ y. All P (update (λ z. key z == key y) f (x ∷ xs))) (sym e)
        (rw (==_refl (key x), update_absent (key x) f xs d.0) (subst (λ y. P (f y)) e k, h.1))
  All-update P f (x ∷ xs) {b} (Memᴰ.tail m) d h k =
      rw (==_ne (key x) (key b) (λ e. mem-All (λ y. key y ≢ key x) xs m d.0 (sym e)))
        (h.0, All-update P f xs m d.1 h.1 k)

  pub sum_ℤ-update :
      (p : A → Bool) (g : A → ℤ) (f : A → A) (t : List A) {b : A}
      → Memᴰ b t
      → Distinct key t
      → sum_ℤ p g (update (λ x. key x == key b) f t) +ℤ (if p b then g b else pos 0)
        ≡ sum_ℤ p g t +ℤ (if p (f b) then g (f b) else pos 0)
  unfolding update sum_ℤ
  sum_ℤ-update p g f [] m d = elim m [ ]
  sum_ℤ-update p g f (x ∷ xs) {b} (Memᴰ.head e) d =
      subst
        (λ y.
          sum_ℤ p g (update (λ x. key x == key y) f (x ∷ xs)) +ℤ (if p y then g y else pos 0)
          ≡ sum_ℤ p g (x ∷ xs) +ℤ (if p (f y) then g (f y) else pos 0))
        (sym e) (rw (==_refl (key x), update_absent (key x) f xs d.0) (omega int_laws))
  sum_ℤ-update p g f (x ∷ xs) {b} (Memᴰ.tail m) d =
      rw (==_ne (key x) (key b) (λ e. mem-All (λ y. key y ≢ key x) xs m d.0 (sym e)))
        (omega (int_laws, parts_of_eq (sum_ℤ-update p g f xs m d.1)))

module _ {A : Type 0} (key : A → ℕ) where
  -- The same for a sum of whole numbers.
  pub sum-update :
      (p : A → Bool) (g : A → ℕ) (f : A → A) (t : List A) {b : A}
      → Memᴰ b t
      → Distinct key t
      → sum p g (update (λ x. key x == key b) f t) + (if p b then g b else 0)
        ≡ sum p g t + (if p (f b) then g (f b) else 0)
  unfolding update sum
  sum-update p g f [] m d = elim m [ ]
  sum-update p g f (x ∷ xs) {b} (Memᴰ.head e) d =
      subst
        (λ y.
          sum p g (update (λ x. key x == key y) f (x ∷ xs)) + (if p y then g y else 0)
          ≡ sum p g (x ∷ xs) + (if p (f y) then g (f y) else 0))
        (sym e) (rw (==_refl (key x), update_absent key (key x) f xs d.0) (omega arith))
  sum-update p g f (x ∷ xs) {b} (Memᴰ.tail m) d =
      rw (==_ne (key x) (key b) (λ e. mem-All (λ y. key y ≢ key x) xs m d.0 (sym e)))
        (omega (arith, sum-update p g f xs m d.1))
