-- ===== src/Inventory/Fifo/Loop.antt =====
-- What the loop takes, and what it leaves alone.
use mathlib.Core.List.{Memᴰ}
use modern_trade_website.Prelude.{
  ℕ, ◌-◌, ◌≡◌, ◌≢◌, ◌⊎◌, refl, true, false, List, [], ◌∷◌, arith, min, if◌then◌else◌, leb, leb→le,
  Bool-cases, inl, inr, All,
}
use modern_trade_website.Prelude.Int.{
  pos, pos_part, neg_part, ◌-ℤ◌, int_laws, parts_of_eq, -ℤ_within,
}
use modern_trade_website.Prelude.Table.{sum, Distinct}
use modern_trade_website.Prelude.Table.Keyed.{
  mem-All, mem-update_ne, Distinct-update, sum_ℤ-update, All-update,
}
use modern_trade_website.Inventory.Rows.{Batch, of_product, stock, AllNonneg}
use modern_trade_website.Inventory.Fifo.{take_from, portion, deduct_rows}

-- The sum of the rows' positive quantities.
abbrev pub on_hand : List Batch → ℕ
on_hand = sum (λ _. true) (λ b. pos_part b.quantity)

-- Rows that a query returned from the table.
pub record AreFrom (t rows : List Batch) : Type 0 where
  pub unique : Distinct (λ b. b.id) t
  pub separate : Distinct (λ b. b.id) rows
  pub members : All (λ b. Memᴰ b t) rows

abbrev lowered : ℕ → Batch → Batch
lowered d b = record b { quantity = b.quantity -ℤ pos d }

still-mem :
    (d : ℕ) (b : Batch) (t rows : List Batch)
    → All (λ y. y.id ≢ b.id) rows
    → All (λ y. Memᴰ y t) rows
    → All (λ y. Memᴰ y (take_from d b.id t)) rows
unfolding take_from
still-mem d b t [] n m = tt
still-mem d b t (y ∷ ys) n m =
    (mem-update_ne (λ x. x.id) b.id (lowered d) t m.0 n.0, still-mem d b t ys n.1 m.1)

-- After one step the rows left are still the table's.
pub AreFrom-step :
    (d : ℕ) (b : Batch) (rows t : List Batch)
    → AreFrom t (b ∷ rows)
    → AreFrom (take_from d b.id t) rows
unfolding take_from
AreFrom-step d b rows t f = record {
  unique = Distinct-update (λ x. x.id) _ (lowered d) t (λ x. refl) f.unique;
  separate = f.separate.1;
  members = still-mem d b t rows f.separate.0 f.members.1;
}

-- One step lowers the stock of the row's product by what it takes.
pub stock-take_from :
    (d : ℕ) (b : Batch) (t : List Batch) (s p : ℕ)
    → Memᴰ b t
    → Distinct (λ x. x.id) t
    → stock s p (take_from d b.id t) ≡ stock s p t -ℤ pos (if of_product s p b then d else 0)
unfolding take_from
stock-take_from d b t s p m u =
    let step =
      parts_of_eq (sum_ℤ-update (λ x. x.id) (of_product s p) (λ x. x.quantity) (lowered d) t m u) in
    elim (Bool-cases (of_product s p b)) [
      | inl e ↦ rw e (omega (int_laws, rw e at step))
      | inr e ↦ rw e (omega (int_laws, rw e at step))
    ]

take_from-AllNonneg :
    (n : ℕ) (b : Batch) (t : List Batch)
    → Memᴰ b t
    → Distinct (λ x. x.id) t
    → AllNonneg t
    → AllNonneg (take_from (portion n b) b.id t)
unfolding take_from
take_from-AllNonneg n b t m u h =
    let positive = mem-All (λ x. neg_part x.quantity ≡ 0) t m h in
    All-update (λ x. x.id) (λ x. neg_part x.quantity ≡ 0) (lowered (portion n b)) t m u h
      (-ℤ_within b.quantity (portion n b) positive (omega arith)).0

-- The loop takes what it is asked for as far as the rows go.
pub deduct_rows-remaining :
    (rows : List Batch) (n : ℕ) (t : List Batch) → (deduct_rows rows n t).1 ≡ n - on_hand rows
unfolding deduct_rows sum
deduct_rows-remaining [] n t = omega arith
deduct_rows-remaining (b ∷ bs) n t =
    ground (arith, deduct_rows-remaining bs (n - portion n b) (take_from (portion n b) b.id t))

-- The rows of one product: the loop lowers its stock by what it took.
pub deduct_rows-stock :
    (rows : List Batch) (n : ℕ) (t : List Batch) (s p : ℕ)
    → AreFrom t rows
    → All (λ b. of_product s p b ≡ true) rows
    → stock s p (deduct_rows rows n t).0 ≡ stock s p t -ℤ pos (min n (on_hand rows))
unfolding deduct_rows sum
deduct_rows-stock [] n t s p f h = omega int_laws
deduct_rows-stock (b ∷ bs) n t s p f h = elim (Bool-cases (leb n 0)) [
  | inl e ↦ rw e (omega (int_laws, leb→le n 0 e))
  | inr e ↦
      let d = portion n b in
      let later =
        parts_of_eq
          (deduct_rows-stock bs (n - d) (take_from d b.id t) s p (AreFrom-step d b bs t f) h.1) in
      let step = parts_of_eq (stock-take_from d b t s p f.members.0 f.unique) in
      rw e (omega (int_laws, later, rw h.0 at step))
]

-- No other product's stock changes.
pub deduct_rows-stock_ne :
    (rows : List Batch) (n : ℕ) (t : List Batch) (s p : ℕ)
    → AreFrom t rows
    → All (λ b. of_product s p b ≡ false) rows
    → stock s p (deduct_rows rows n t).0 ≡ stock s p t
unfolding deduct_rows
deduct_rows-stock_ne [] n t s p f h = refl
deduct_rows-stock_ne (b ∷ bs) n t s p f h = elim (Bool-cases (leb n 0)) [
  | inl e ↦ rw e refl
  | inr e ↦
      let d = portion n b in
      let later =
        parts_of_eq (
          deduct_rows-stock_ne bs (n - d) (take_from d b.id t) s p (AreFrom-step d b bs t f) h.1) in
      let step = parts_of_eq (stock-take_from d b t s p f.members.0 f.unique) in
      rw e (omega (int_laws, later, rw h.0 at step))
]

-- The quantities stay at or above 0, and the ids stay distinct.
pub deduct_rows-AllNonneg :
    (rows : List Batch) (n : ℕ) (t : List Batch)
    → AreFrom t rows
    → AllNonneg t
    → AllNonneg (deduct_rows rows n t).0
unfolding deduct_rows
deduct_rows-AllNonneg [] n t f h = h
deduct_rows-AllNonneg (b ∷ bs) n t f h = elim (Bool-cases (leb n 0)) [
  | inl e ↦ rw e h
  | inr e ↦
      let d = portion n b in
      rw e (
        deduct_rows-AllNonneg bs (n - d) (take_from d b.id t) (AreFrom-step d b bs t f)
          (take_from-AllNonneg n b t f.members.0 f.unique h))
]

pub deduct_rows-Distinct :
    (rows : List Batch) (n : ℕ) (t : List Batch)
    → Distinct (λ b. b.id) t
    → Distinct (λ b. b.id) (deduct_rows rows n t).0
unfolding deduct_rows take_from
deduct_rows-Distinct [] n t u = u
deduct_rows-Distinct (b ∷ bs) n t u = elim (Bool-cases (leb n 0)) [
  | inl e ↦ rw e u
  | inr e ↦
      let d = portion n b in
      rw e (
        deduct_rows-Distinct bs (n - d) (take_from d b.id t)
          (Distinct-update (λ x. x.id) _ (lowered d) t (λ x. refl) u))
]

-- A batch is of one product and in one store.
pub of_product_other :
    (s p s' p' : ℕ) (b : Batch)
    → (s' ≢ s) ⊎ (p' ≢ p)
    → of_product s p b ≡ true
    → of_product s' p' b ≡ false
of_product_other s p s' p' b n e = ground arith
