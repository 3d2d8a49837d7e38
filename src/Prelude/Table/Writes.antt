-- ===== src/Prelude/Table/Writes.antt =====
-- Writes to the rows that pass a test.
use mathlib.Core.List.{Memᴰ}
use modern_trade_website.Prelude.{
  ℕ, ◌+◌, ◌≡◌, refl, ap, Bool, true, false, List, [], ◌∷◌, if◌then◌else◌, Bool-cases, inl, inr, All,
  not,
}
use modern_trade_website.Prelude.Table.{select, update, sum}
use modern_trade_website.Prelude.Table.Keyed.{All-mem_tail}

module _ {A : Type 0} where
  -- A write after which its own test fails on every row leaves nothing to select.
  pub select-update_none :
      (p : A → Bool) (f : A → A) (t : List A)
      → ((x : A) → p x ≡ true → p (f x) ≡ false)
      → select p (update p f t) ≡ []
  unfolding select update
  select-update_none p f [] h = refl
  select-update_none p f (x ∷ xs) h = elim (Bool-cases (p x)) [
    | inl e ↦ rw (e, h x e) (select-update_none p f xs h)
    | inr e ↦ rw (e, e) (select-update_none p f xs h)
  ]

  pub update_of_select_none :
      (p : A → Bool) (f : A → A) (t : List A) → select p t ≡ [] → update p f t ≡ t
  unfolding select update
  update_of_select_none p f [] h = refl
  update_of_select_none p f (x ∷ xs) h = elim (Bool-cases (p x)) [
    | inl e ↦ cc (rw e at h)
    | inr e ↦ rw e (ap (λ l. x ∷ l) (update_of_select_none p f xs (rw e at h)))
  ]

  pub mem-update_of_false :
      (p : A → Bool) (f : A → A) (t : List A) {r : A}
      → Memᴰ r t
      → p r ≡ false
      → Memᴰ r (update p f t)
  unfolding update
  mem-update_of_false p f [] m h = elim m [ ]
  mem-update_of_false p f (x ∷ xs) {r} (Memᴰ.head e) h =
      let stays : p x ≡ false = rw (← e) h in rw stays (Memᴰ.head e)
  mem-update_of_false p f (x ∷ xs) (Memᴰ.tail m) h = Memᴰ.tail (mem-update_of_false p f xs m h)

  pub mem-update_of_true :
      (p : A → Bool) (f : A → A) (t : List A) {r : A}
      → Memᴰ r t
      → p r ≡ true
      → Memᴰ (f r) (update p f t)
  unfolding update
  mem-update_of_true p f [] m h = elim m [ ]
  mem-update_of_true p f (x ∷ xs) {r} (Memᴰ.head e) h =
      let hit : p x ≡ true = rw (← e) h in rw hit (Memᴰ.head (ap f e))
  mem-update_of_true p f (x ∷ xs) (Memᴰ.tail m) h = Memᴰ.tail (mem-update_of_true p f xs m h)

  -- A write that touches neither the test nor the column of a sum.
  pub sum-update_same :
      (p q : A → Bool) (g : A → ℕ) (f : A → A) (t : List A)
      → ((x : A) → p (f x) ≡ p x)
      → ((x : A) → g (f x) ≡ g x)
      → sum p g (update q f t) ≡ sum p g t
  unfolding sum update
  sum-update_same p q g f [] h k = refl
  sum-update_same p q g f (x ∷ xs) h k = elim (Bool-cases (q x)) [
    | inl e ↦
        rw (e, h x, k x) (ap (λ n. (if p x then g x else 0) + n) (sum-update_same p q g f xs h k))
    | inr e ↦ rw e (ap (λ n. (if p x then g x else 0) + n) (sum-update_same p q g f xs h k))
  ]

  -- The rows that a write does not touch are in the table after it.
  pub update-keeps :
      (p : A → Bool) (f : A → A) (t : List A)
      → All (λ r. Memᴰ r (update p f t)) (select (λ r. not (p r)) t)
  unfolding update select
  update-keeps p f [] = tt
  update-keeps p f (x ∷ xs) =
      let rest =
        All-mem_tail (if p x then f x else x) (update p f xs) (select (λ r. not (p r)) xs)
          (update-keeps p f xs) in
      elim (Bool-cases (p x)) [
        | inl e ↦ rw e (rw e at rest)
        | inr e ↦ rw e (Memᴰ.head refl, rw e at rest)
      ]
