-- ===== src/Prelude/Table/Order.antt =====
-- ORDER BY keeps the rows: what holds of all of them, their keys and their sums.
use modern_trade_website.Prelude.{
  All, List, sym, inl, inr, ◌∷◌, refl, arith, ◌≡◌, ℕ, Bool, true, Bool-cases, ◌≢◌, ◌+◌, [],
  if◌then◌else◌,
}
use modern_trade_website.Prelude.Table.{select, order_by, Distinct, sum, insert_by}
use modern_trade_website.Prelude.Table.Keyed.{select-All}

module _ {A : Type 0} (before : A → A → Bool) where
  pub All-insert_by {ℓ} :
      (P : A → Type ℓ) (x : A) (ys : List A) → P x → All P ys → All P (insert_by before x ys)
  unfolding insert_by
  All-insert_by P x [] p h = (p, tt)
  All-insert_by P x (y ∷ ys) p h = elim (Bool-cases (before x y)) [
    | inl e ↦ rw e (p, h)
    | inr e ↦ rw e (h.0, All-insert_by P x ys p h.1)
  ]

  pub All-order_by {ℓ} : (P : A → Type ℓ) (xs : List A) → All P xs → All P (order_by before xs)
  unfolding order_by
  All-order_by P [] h = tt
  All-order_by P (x ∷ xs) h = All-insert_by P x (order_by before xs) h.0 (All-order_by P xs h.1)

  Distinct-insert_by :
      (key : A → ℕ) (x : A) (ys : List A)
      → All (λ y. key y ≢ key x) ys
      → Distinct key ys
      → Distinct key (insert_by before x ys)
  unfolding insert_by
  Distinct-insert_by key x [] n d = (tt, tt)
  Distinct-insert_by key x (y ∷ ys) n d = elim (Bool-cases (before x y)) [
    | inl e ↦ rw e (n, d)
    | inr e ↦ rw e (
      All-insert_by (λ z. key z ≢ key y) x ys (λ q. n.0 (sym q)) d.0,
      Distinct-insert_by key x ys n.1 d.1,
    )
  ]

  pub Distinct-order_by :
      (key : A → ℕ) (xs : List A) → Distinct key xs → Distinct key (order_by before xs)
  unfolding order_by
  Distinct-order_by key [] d = tt
  Distinct-order_by key (x ∷ xs) d =
      Distinct-insert_by key x (order_by before xs) (All-order_by (λ y. key y ≢ key x) xs d.0)
        (Distinct-order_by key xs d.1)

  sum-insert_by :
      (p : A → Bool) (f : A → ℕ) (x : A) (ys : List A)
      → sum p f (insert_by before x ys) ≡ (if p x then f x else 0) + sum p f ys
  unfolding sum insert_by
  sum-insert_by p f x [] = refl
  sum-insert_by p f x (y ∷ ys) = elim (Bool-cases (before x y)) [
    | inl e ↦ rw e refl
    | inr e ↦ rw e (omega (arith, sum-insert_by p f x ys))
  ]

  pub sum-order_by :
      (p : A → Bool) (f : A → ℕ) (xs : List A) → sum p f (order_by before xs) ≡ sum p f xs
  unfolding sum order_by
  sum-order_by p f [] = refl
  sum-order_by p f (x ∷ xs) =
      omega (arith, sum-insert_by p f x (order_by before xs), sum-order_by p f xs)

  -- The rows of a query with an order pass its test.
  pub order_by-select-All :
      (p : A → Bool) (t : List A) → All (λ x. p x ≡ true) (order_by before (select p t))
  order_by-select-All p t = All-order_by (λ x. p x ≡ true) (select p t) (select-All p t)
