-- ===== src/Prelude/Table.antt =====
-- The SQL that the services write, over a table as a list of rows in order of insertion.
pub mod Keyed
pub mod Writes
pub mod Find
pub mod Order
use modern_trade_website.Prelude.{
  ℕ, suc, ◌+◌, ◌≤◌, ◌≡◌, ◌≢◌, refl, sym, ap, ◌∙◌, Bool, true, false, List, [], ◌∷◌, ◌++◌, arith,
  if◌then◌else◌, ◌==◌, ==_iff, ==_refl, Bool-cases, inl, inr, All, length,
}
use modern_trade_website.Prelude.Int.{ℤ, pos, ◌+ℤ◌}

module _ {A : Type 0} where
  -- SELECT … WHERE
  unfoldable pub select : (A → Bool) → List A → List A
  select p [] = []
  select p (x ∷ xs) = let rest = select p xs in if p x then x ∷ rest else rest

  -- UPDATE … SET … WHERE
  unfoldable pub update : (A → Bool) → (A → A) → List A → List A
  update p f [] = []
  update p f (x ∷ xs) = (if p x then f x else x) ∷ update p f xs

  -- SELECT COALESCE(SUM(f), 0) … WHERE, for a column of whole numbers
  unfoldable pub sum : (A → Bool) → (A → ℕ) → List A → ℕ
  sum p f [] = 0
  sum p f (x ∷ xs) = (if p x then f x else 0) + sum p f xs

  -- the same for a column that may be negative
  unfoldable pub sum_ℤ : (A → Bool) → (A → ℤ) → List A → ℤ
  sum_ℤ p f [] = pos 0
  sum_ℤ p f (x ∷ xs) = (if p x then f x else pos 0) +ℤ sum_ℤ p f xs

  -- SELECT COUNT(*) … WHERE
  unfoldable pub count : (A → Bool) → List A → ℕ
  count p [] = 0
  count p (x ∷ xs) = (if p x then 1 else 0) + count p xs

  -- ORDER BY, by insertion: `before x y` where x may stand before y.
  unfoldable pub insert_by : (A → A → Bool) → A → List A → List A
  insert_by before x [] = x ∷ []
  insert_by before x (y ∷ ys) =
      let later = insert_by before x ys in if before x y then x ∷ y ∷ ys else y ∷ later

  unfoldable pub order_by : (A → A → Bool) → List A → List A
  unfolding insert_by
  order_by before [] = []
  order_by before (x ∷ xs) = insert_by before x (order_by before xs)

-- No two rows have one key.
abbrev pub Distinct : {A : Type 0} → (A → ℕ) → List A → Type 0
Distinct key [] = Unit
Distinct key (x ∷ xs) = All (λ y. key y ≢ key x) xs × Distinct key xs
