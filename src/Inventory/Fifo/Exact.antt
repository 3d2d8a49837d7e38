-- ===== src/Inventory/Fifo/Exact.antt =====
-- The quantity that the loop leaves in each batch, and the stock behind a query for FIFO.
use mathlib.Core.List.{Memᴰ}
use modern_trade_website.Prelude.{
  ℕ, ◌-◌, ◌≤◌, ◌≡◌, ◌≢◌, refl, sym, ap, subst, Bool, true, false, List, [], ◌∷◌, ◌++◌, arith, min,
  ◌&&◌, leb, leb→le, Bool-cases, inl, inr, All,
}
use modern_trade_website.Prelude.Int.{ℤ, pos, pos_part, neg_part, ◌-ℤ◌, int_laws, parts_of_eq}
use modern_trade_website.Prelude.Table.{sum, sum_ℤ, select, order_by}
use modern_trade_website.Prelude.Table.Keyed.{mem-update_ne, mem-update_self}
use modern_trade_website.Inventory.Rows.{Batch, of_product, has_stock, stock, AllNonneg}
use modern_trade_website.Inventory.Fifo.{take_from, portion, deduct_rows}
use modern_trade_website.Inventory.Fifo.Loop.{AreFrom, AreFrom-step, on_hand}
use modern_trade_website.Prelude.Table.Order.{sum-order_by}

-- What is taken from a batch whose elder rows hold `elder`.
abbrev pub left_in : ℕ → ℕ → Batch → Batch
left_in n elder b = record b {
  quantity = b.quantity -ℤ pos (min (n - elder) (pos_part b.quantity));
}

-- A batch that is not among the rows stays as it is.
pub mem-deduct_rows :
    (rows : List Batch) (n : ℕ) (t : List Batch) {r : Batch}
    → Memᴰ r t
    → All (λ y. y.id ≢ r.id) rows
    → Memᴰ r (deduct_rows rows n t).0
unfolding deduct_rows take_from
mem-deduct_rows [] n t m h = m
mem-deduct_rows (b ∷ bs) n t m h = elim (Bool-cases (leb n 0)) [
  | inl e ↦ rw e m
  | inr e ↦ rw e (
      mem-deduct_rows bs (n - portion n b) (take_from (portion n b) b.id t)
        (mem-update_ne (λ x. x.id) b.id _ t m (λ q. h.0 (sym q))) h.1)
]

mem-append_mid :
    (pre post t : List Batch) (b : Batch) → All (λ y. Memᴰ y t) (pre ++ b ∷ post) → Memᴰ b t
mem-append_mid [] post t b h = h.0
mem-append_mid (a ∷ pre) post t b h = mem-append_mid pre post t b h.1

left_in-none : (b : Batch) (n elder : ℕ) → n ≤ 0 → b ≡ left_in n elder b
unfolding ◌-ℤ◌
left_in-none b n elder h = ap (λ q. record b { quantity = q }) (quantity_same b.quantity)
  where
    quantity_same : (q : ℤ) → q ≡ q -ℤ pos (min (n - elder) (pos_part q))
    quantity_same q = ground arith

-- Each row loses what the elder rows could not give, and no more than it holds.
pub deduct_rows-left_in :
    (pre post : List Batch) (b : Batch) (n : ℕ) (t : List Batch)
    → AreFrom t (pre ++ b ∷ post)
    → Memᴰ (left_in n (on_hand pre) b) (deduct_rows (pre ++ b ∷ post) n t).0
unfolding deduct_rows take_from sum
deduct_rows-left_in [] post b n t f = elim (Bool-cases (leb n 0)) [
  | inl e ↦ rw e (subst (λ x. Memᴰ x t) (left_in-none b n 0 (leb→le n 0 e)) f.members.0)
  | inr e ↦ rw e (
      mem-deduct_rows post (n - portion n b) (take_from (portion n b) b.id t) {r = left_in n 0 b}
        (let whole : n - 0 ≡ n = omega arith in
          rw whole (
            mem-update_self (λ x. x.id)
              (λ x. record x { quantity = x.quantity -ℤ pos (portion n b) }) t f.members.0))
        f.separate.0)
]
deduct_rows-left_in (a ∷ pre) post b n t f = elim (Bool-cases (leb n 0)) [
  | inl e ↦ rw e (
      subst (λ x. Memᴰ x t) (left_in-none b n (on_hand (a ∷ pre)) (leb→le n 0 e))
        (mem-append_mid pre post t b f.members.1))
  | inr e ↦
      let d = portion n a in
      let same : n - d - on_hand pre ≡ n - on_hand (a ∷ pre) = omega arith in
      rw (e, ← same)
        (deduct_rows-left_in pre post b (n - d) (take_from d a.id t)
          (AreFrom-step d a (pre ++ b ∷ post) t f))
]

empty_batch : (b : Batch) → has_stock b ≡ false → pos_part b.quantity ≤ neg_part b.quantity
empty_batch b e = ground arith

-- On a table with no negative quantity the rows with stock hold all of it.
on_hand-select :
    (s p : ℕ) (t : List Batch)
    → AllNonneg t
    → pos (on_hand (select (λ b. of_product s p b && has_stock b) t)) ≡ stock s p t
unfolding sum sum_ℤ select
on_hand-select s p [] h = refl
on_hand-select s p (b ∷ bs) h =
    let later = parts_of_eq (on_hand-select s p bs h.1) in
    elim (Bool-cases (of_product s p b)) [
      | inr e ↦ rw e (omega (int_laws, later))
      | inl e ↦ elim (Bool-cases (has_stock b)) [
        | inl k ↦ rw (e, k) (omega (int_laws, later, h.0))
        | inr k ↦ rw (e, k) (omega (int_laws, later, h.0, empty_batch b k))
      ]
    ]

pub on_hand-stock :
    (before : Batch → Batch → Bool) (s p : ℕ) (t : List Batch)
    → AllNonneg t
    → pos (on_hand (order_by before (select (λ b. of_product s p b && has_stock b) t)))
      ≡ stock s p t
on_hand-stock before s p t h =
    rw (sum-order_by before (λ _. true) (λ b. pos_part b.quantity)) (on_hand-select s p t h)
