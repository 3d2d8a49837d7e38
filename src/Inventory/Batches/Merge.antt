-- ===== src/Inventory/Batches/Merge.antt =====
-- mergeBatches keeps the stock where its ids are what they should be, and it does not check that.
use mathlib.Core.List.{Memᴰ}
use modern_trade_website.Prelude.{
  ℕ, ◌+◌, ◌≡◌, ◌≢◌, ◌⊎◌, refl, Bool, true, false, List, [], ◌∷◌, ◌&&◌, if◌then◌else◌, ◌==◌,
  Bool-cases, inl, inr, All, All-imp, Option, some, Option-cases, some_injective, ◌∙◌,
}
use modern_trade_website.Prelude.Int.{
  ltb_ℤ, ℤ, pos, pos_part, neg_part, ◌+ℤ◌, int_laws, parts_of_eq,
}
use modern_trade_website.Prelude.Table.{select, update, sum_ℤ, Distinct}
use modern_trade_website.Prelude.Table.Keyed.{sum_ℤ-update, sum_ℤ-select, select-All}
use modern_trade_website.Inventory.Rows.{Batch, of_product, stock}
use modern_trade_website.Inventory.Batches.{among, merge_batches, joined_quantity, merged}
use modern_trade_website.Prelude.Outcome.{ok}

-- The sources lie in the store of the target and hold its product.
abbrev SameProduct : List ℕ → Batch → List Batch → Type 0
SameProduct sources b =
    All
      (λ x. (among sources x ≡ false) ⊎ ((x.store_id ≡ b.store_id) × (x.product_id ≡ b.product_id)))

moved_here :
    (c : Bool) (q a b : ℤ)
    → pos_part a + neg_part b ≡ pos_part b + neg_part a
    → (if c && true then q else pos 0) +ℤ a ≡ (if c then q else pos 0) +ℤ b
moved_here true q a b e = omega int_laws
moved_here false q a b e = omega int_laws

moved_away :
    (c : Bool) (q a : ℤ)
    → pos_part a + 0 ≡ 0 + neg_part a
    → (if c && false then q else pos 0) +ℤ a ≡ pos 0
moved_away true q a e = omega int_laws
moved_away false q a e = omega int_laws

moved-total :
    (sources : List ℕ) (b : Batch) (s p : ℕ) (t : List Batch)
    → SameProduct sources b t
    → sum_ℤ (λ x. among sources x && of_product s p x) (λ x. x.quantity) t
      ≡ (if of_product s p b then sum_ℤ (among sources) (λ x. x.quantity) t else pos 0)
unfolding sum_ℤ
moved-total sources b s p [] h = elim (Bool-cases (of_product s p b)) [
  | inl k ↦ rw k refl
  | inr k ↦ rw k refl
]
moved-total sources b s p (x ∷ xs) (h, hs) =
    let later = parts_of_eq (moved-total sources b s p xs hs) in
    elim (Bool-cases (of_product s p b)) [
      | inl k ↦ elim h [
        | inl e ↦ rw (e, k) (omega (int_laws, rw k at later))
        | inr (store, product) ↦
            rw (store, product, k) (moved_here (among sources x) x.quantity _ _ (rw k at later))
      ]
      | inr k ↦ elim h [
        | inl e ↦ rw (e, k) (omega (int_laws, rw k at later))
        | inr (store, product) ↦
            rw (store, product, k) (moved_away (among sources x) x.quantity _ (rw k at later))
      ]
    ]

sum_ℤ-selected :
    (p : Batch → Bool) (t : List Batch)
    → sum_ℤ p (λ x. x.quantity) t ≡ sum_ℤ (λ _. true) (λ x. x.quantity) (select p t)
unfolding sum_ℤ select
sum_ℤ-selected p [] = refl
sum_ℤ-selected p (x ∷ xs) =
    let later = parts_of_eq (sum_ℤ-selected p xs) in
    elim (Bool-cases (p x)) [
      | inl e ↦ rw e (omega (int_laws, later))
      | inr e ↦ rw e (omega (int_laws, later))
    ]

joined-sum :
    (rows : List Batch) (total : ℤ)
    → joined_quantity rows ≡ some total
    → sum_ℤ (λ _. true) (λ x. x.quantity) rows ≡ total
unfolding sum_ℤ joined_quantity
joined-sum [] total h = some_injective h
joined-sum (b ∷ []) total h = elim (Bool-cases (ltb_ℤ b.quantity (pos 0))) [
  | inl e ↦ cc (rw e at h)
  | inr e ↦ let same = parts_of_eq (some_injective (rw e at h)) in omega (int_laws, same)
]
joined-sum (b ∷ c ∷ bs) total h = cc h

-- A merge that goes through moves what the sources hold.
merged-stock :
    (sources : List ℕ) (b : Batch) (s p : ℕ) (t : List Batch) (total : ℤ)
    → Memᴰ b t
    → Distinct (λ x. x.id) t
    → among sources b ≡ false
    → SameProduct sources b t
    → sum_ℤ (among sources) (λ x. x.quantity) t ≡ total
    → stock s p (merged b.id sources t (some total)).1 ≡ stock s p t
merged-stock sources b s p t total m u out same whole =
    let raise : Batch → Batch = λ x. record x { quantity = x.quantity +ℤ total } in
    let t' = update (λ x. x.id == b.id) raise t in
    let split = parts_of_eq (sum_ℤ-select (of_product s p) (among sources) (λ x. x.quantity) t') in
    let raised =
      parts_of_eq (sum_ℤ-update (λ x. x.id) (of_product s p) (λ x. x.quantity) raise t m u) in
    let kept = parts_of_eq (
      sum_ℤ-update (λ x. x.id) (λ x. among sources x && of_product s p x) (λ x. x.quantity) raise t
        m u) in
    let moved = parts_of_eq (moved-total sources b s p t same) in
    let sum = parts_of_eq whole in
    elim (Bool-cases (of_product s p b)) [
      | inl k ↦ omega (int_laws, split, rw k at raised, rw out at kept, rw k at moved, sum)
      | inr k ↦ omega (int_laws, split, rw k at raised, rw out at kept, rw k at moved, sum)
    ]

-- In a table with distinct ids, mergeBatches to a batch of the table, whether it throws or not, keeps
-- the stock of every store and product, where the target is not among its own sources and the sources
-- lie in the target's store and hold its product.
pub stock-merge_batches :
    (sources : List ℕ) (b : Batch) (s p : ℕ) (t : List Batch)
    → Memᴰ b t
    → Distinct (λ x. x.id) t
    → among sources b ≡ false
    → SameProduct sources b t
    → stock s p (merge_batches b.id sources t).1 ≡ stock s p t
unfolding merge_batches
stock-merge_batches sources b s p t m u out same =
    elim (Option-cases (joined_quantity (select (among sources) t))) [
      | inl e ↦ rw e refl
      | inr (total, e) ↦ rw e (
          merged-stock sources b s p t total m u out same
            (sum_ℤ-selected (among sources) t ∙ joined-sum (select (among sources) t) total e))
    ]

gone :
    (sources : List ℕ) (b x : Batch)
    → among sources b ≡ true
    → (if among sources x then false else true) ≡ true
    → x.id ≢ b.id
gone sources b x e k same = cc (rw same at k, e)

-- A mergeBatches that does not throw deletes its target where that is among its own sources: no row
-- with its id is left.
pub merge_batches_self :
    (sources : List ℕ) (b : Batch) (t : List Batch) (r : Option Batch)
    → among sources b ≡ true
    → (merge_batches b.id sources t).0 ≡ ok r
    → All (λ x. x.id ≢ b.id) (merge_batches b.id sources t).1
unfolding merge_batches
merge_batches_self sources b t r e h =
    elim (Option-cases (joined_quantity (select (among sources) t))) [
      | inl k ↦ cc (rw k at h)
      | inr (total, k) ↦
          let t' =
            update (λ x. x.id == b.id) (λ x. record x { quantity = x.quantity +ℤ total }) t in
          rw k (
            All-imp (λ x. (if among sources x then false else true) ≡ true) (λ x. x.id ≢ b.id)
              (λ x k. gone sources b x e k)
              (select (λ x. if among sources x then false else true) t')
              (select-All (λ x. if among sources x then false else true) t'))
    ]
