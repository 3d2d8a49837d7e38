-- ===== src/Inventory/Batches/Refine/Steps.antt =====
-- The table of batches against a quantity for every store and product, call by call.
use modern_trade_website.Prelude.Int.{◌-ℤ◌, parts_of_eq, int_laws, pos, neg_part, ℤ, ◌+ℤ◌}
use modern_trade_website.Prelude.Table.Keyed.{All-update-All, Distinct-update}
use modern_trade_website.Prelude.{
  leb, ◌∷◌, ◌∙◌, ◌+◌, ℕ, ◌<◌, ◌≡◌, Bool, ◌==◌, All, refl, Bool-cases, List, ◌&&◌, inl, ◌⊎◌, inr,
  true, ◌≢◌, false, arith, ◌-◌, [], if◌then◌else◌, All-imp, leb→le, lt→ltb, some, All-append,
  Option, none, head?, ==_refl, sym, ◌++◌,
}
use modern_trade_website.Inventory.Batches.{
  deduct_from_batch, BatchData, add_batch_inventory, insert_batch, is_batch,
}
use modern_trade_website.Inventory.Fifo.{batches_for_fifo, portion, deduct_rows, take_from}
use modern_trade_website.Inventory.Fifo.Loop.{
  deduct_rows-stock_ne, on_hand, deduct_rows-stock, deduct_rows-AllNonneg, deduct_rows-remaining,
}
use modern_trade_website.Inventory.Rows.{Batch, stock}
use modern_trade_website.Prelude.Table.{Distinct, select}
use modern_trade_website.Inventory.Batches.Deduct.{
  rows-AreFrom, rows_other, rows-stock, rows-of_product,
}
use modern_trade_website.Prelude.Outcome.{is_ok}
use modern_trade_website.Inventory.Batches.Adjust.{stock-add_batch_inventory}
use modern_trade_website.Inventory.Batches.Refine.{
  run_op, replay_op, run, with_quantity, Holds, Op, deduct, Available, add, replay,
}

deduct_rows-All :
    {P : Batch → Type 0} (rows : List Batch) (n : ℕ) (t : List Batch)
    → ((d : ℕ) (b : Batch) → P b → P (record b { quantity = b.quantity -ℤ pos d }))
    → All P t
    → All P (deduct_rows rows n t).0
unfolding deduct_rows take_from
deduct_rows-All [] n t k h = h
deduct_rows-All {P} (b ∷ bs) n t k h = elim (Bool-cases (leb n 0)) [
  | inl e ↦ rw e h
  | inr e ↦ rw e (
      deduct_rows-All bs (n - portion n b) (take_from (portion n b) b.id t) k
        (All-update-All P (λ x. x.id == b.id) _ t (k (portion n b)) h))
]

deduct_rows-Distinct :
    (rows : List Batch) (n : ℕ) (t : List Batch)
    → Distinct (λ b. b.id) t
    → Distinct (λ b. b.id) (deduct_rows rows n t).0
unfolding deduct_rows take_from
deduct_rows-Distinct [] n t h = h
deduct_rows-Distinct (b ∷ bs) n t h = elim (Bool-cases (leb n 0)) [
  | inl e ↦ rw e h
  | inr e ↦ rw e (
      deduct_rows-Distinct bs (n - portion n b) (take_from (portion n b) b.id t)
        (Distinct-update (λ (x : Batch). x.id) (λ x. x.id == b.id) _ t (λ x. refl) h))
]

Distinct-snoc :
    {A : Type 0} (key : A → ℕ) (x : A) (t : List A)
    → Distinct key t
    → All (λ y. key y ≢ key x) t
    → Distinct key (t ++ x ∷ [])
Distinct-snoc key x [] d a = (tt, tt)
Distinct-snoc key x (y ∷ ys) d a = (
  All-append (λ z. key z ≢ key y) ys (x ∷ []) d.0 (λ e. a.0 (sym e), tt),
  Distinct-snoc key x ys d.1 a.1,
)

raised : (a : ℤ) (n : ℕ) → neg_part a ≡ 0 → neg_part (a +ℤ pos n) ≡ 0
unfolding ◌+ℤ◌
raised a n e = ground arith

module _ (next : ℕ) (t : List Batch) (f : Available) (h : Holds next t f) where
  -- The row that addBatchInventory writes, new or raised.
  inserted-Distinct :
      (d : BatchData) (now : ℕ) (o : Option Batch)
      → Distinct (λ b. b.id) (insert_batch d next now t o)
  inserted-Distinct d now none =
      Distinct-snoc (λ (b : Batch). b.id) _ t h.unique
        (All-imp _ _ (λ b k. omega (arith, k)) t h.below)
  inserted-Distinct d now (some b) =
      Distinct-update (λ (x : Batch). x.id) (λ x. x.id == b.id) _ t (λ x. refl) h.unique

  inserted-All :
      (P : Batch → Type 0) (d : BatchData) (now : ℕ)
      → P (record {
        id = next;
        store_id = d.store_id;
        product_id = d.product_id;
        batch_id = d.batch_id;
        expiry_date = d.expiry_date;
        quantity = pos d.quantity;
        created_at = now;
      })
      → ((b : Batch) → P b → P (record b { quantity = b.quantity +ℤ pos d.quantity }))
      → All P t
      → (o : Option Batch) → All P (insert_batch d next now t o)
  inserted-All P d now fresh more a none = All-append P t _ a (fresh, tt)
  inserted-All P d now fresh more a (some b) = All-update-All P (λ x. x.id == b.id) _ t more a

  module _ (p s q : ℕ) where
    abbrev from : List Batch
    from = batches_for_fifo p s t

    on_hand-is : on_hand from ≡ f s p
    on_hand-is =
        omega (int_laws, parts_of_eq (rows-stock s p t h.unique h.nonneg), parts_of_eq (h.view s p))

    deduct-view :
        (s' p' : ℕ)
        → stock s' p' (deduct_rows from q t).0 ≡ pos (with_quantity s p (f s p - q) f s' p')
    deduct-view s' p' = elim (Bool-cases (s' == s && p' == p)) [
      | inl k ↦
          let (store, product) = same_pair s' p' k in
          rw (k, store, product)
            (omega (
              int_laws,
              parts_of_eq (
                  deduct_rows-stock from q t s p (rows-AreFrom s p t h.unique)
                    (rows-of_product s p t)),
              on_hand-is,
              parts_of_eq (h.view s p),
            ))
      | inr k ↦ rw k (
          deduct_rows-stock_ne from q t s' p' (rows-AreFrom s p t h.unique)
            (rows_other s p t h.unique s' p' (apart s' p' k))
          ∙ h.view s' p')
    ]
      where
        same_pair : (a b : ℕ) → (a == s && b == p) ≡ true → (a ≡ s) × (b ≡ p)
        same_pair a b e = ground arith

        apart : (a b : ℕ) → (a == s && b == p) ≡ false → (a ≢ s) ⊎ (b ≢ p)
        apart a b e = ground arith

    deduct-answer : is_ok (deduct_from_batch p s q t).0 ≡ leb q (f s p)
    unfolding deduct_from_batch
    deduct-answer = elim (Bool-cases (leb q (f s p))) [
      | inl k ↦
          let done : (deduct_rows from q t).1 ≡ 0 =
            omega (arith, deduct_rows-remaining from q t, on_hand-is, leb→le q (f s p) k) in
          rw (done, k) refl
      | inr k ↦
          let short : f s p < q = ground (arith, k) in
          let left : 0 < (deduct_rows from q t).1 =
            omega (arith, deduct_rows-remaining from q t, on_hand-is, short) in
          rw (lt→ltb 0 (deduct_rows from q t).1 left, k) refl
    ]

    deduct-Holds : Holds (next + 1) (deduct_rows from q t).0 (with_quantity s p (f s p - q) f)
    deduct-Holds = record {
      unique = deduct_rows-Distinct from q t h.unique;
      nonneg = deduct_rows-AllNonneg from q t (rows-AreFrom s p t h.unique) h.nonneg;
      below =
          deduct_rows-All from q t (λ d b k. k) (All-imp _ _ (λ b k. omega (arith, k)) t h.below);
      view = deduct-view;
    }

  module _ (d : BatchData) (now : ℕ) where
    grown :
        (s p : ℕ)
        → with_quantity d.store_id d.product_id (f d.store_id d.product_id + d.quantity) f s p
          ≡ f s p + (if d.store_id == s && d.product_id == p then d.quantity else 0)
    grown s p = elim (Bool-cases (d.store_id == s && d.product_id == p)) [
      | inl k ↦
          let (store, product) = pair_of s p k in rw (k, store, product, ==_refl s, ==_refl p) refl
      | inr k ↦ rw (k, flip s p k) (omega arith)
    ]
      where
        pair_of :
            (a b : ℕ)
            → (d.store_id == a && d.product_id == b) ≡ true
            → (d.store_id ≡ a) × (d.product_id ≡ b)
        pair_of a b e = ground arith

        flip :
            (a b : ℕ)
            → (d.store_id == a && d.product_id == b) ≡ false
            → (a == d.store_id && b == d.product_id) ≡ false
        flip a b e = ground arith

    add-view :
        (s p : ℕ)
        → stock s p (add_batch_inventory d next now t)
          ≡ pos
              (with_quantity d.store_id d.product_id (f d.store_id d.product_id + d.quantity) f s p)
    add-view s p = rw (grown s p) (
        omega (
          int_laws,
          parts_of_eq (stock-add_batch_inventory d next now s p t h.unique),
          parts_of_eq (h.view s p),
        ))

    add-Holds :
        Holds
          (next + 1)
          (add_batch_inventory d next now t)
          (with_quantity d.store_id d.product_id (f d.store_id d.product_id + d.quantity) f)
    unfolding add_batch_inventory
    add-Holds = record {
      unique = inserted-Distinct d now (head? (select (is_batch d) t));
      nonneg =
          inserted-All (λ b. neg_part b.quantity ≡ 0) d now refl
            (λ b e. raised b.quantity d.quantity e) h.nonneg (head? (select (is_batch d) t));
      below =
          inserted-All (λ b. b.id < next + 1) d now (omega arith) (λ b e. e)
            (All-imp _ _ (λ b k. omega (arith, k)) t h.below) (head? (select (is_batch d) t));
      view = add-view;
    }

  step-Holds :
      (op : Op)
      → ((run_op op next t).0 ≡ (replay_op op f).0)
        × Holds (next + 1) (run_op op next t).1 (replay_op op f).1
  unfolding deduct_from_batch
  step-Holds (add d now) = (refl, add-Holds d now)
  step-Holds (deduct p s q) = (deduct-answer p s q, deduct-Holds p s q)

-- The table of batches refines a quantity for every store and product: for any calls of addBatchInventory
-- and deductFromBatch, from a table whose stock is what is available, and whose ids are distinct and
-- below the next one, with no negative quantity, the same calls succeed on both sides, and the table's
-- stock of every product in every store is what is available after them. A deduction succeeds exactly
-- where enough is available, and takes all there is where it fails.
pub run-replay :
    (ops : List Op) (next : ℕ) (t : List Batch) (f : Available)
    → Holds next t f
    → ((run ops next t).0 ≡ (replay ops f).0)
      × ((s p : ℕ) → stock s p (run ops next t).1 ≡ pos ((replay ops f).1 s p))
run-replay [] next t f h = (refl, h.view)
run-replay (op ∷ ops) next t f h =
    let (same, later) = step-Holds next t f h op in
    let (answers, view) = run-replay ops (next + 1) (run_op op next t).1 (replay_op op f).1 later in
    (ap2 same answers, view)
  where
    ap2 : {a b : Bool} {xs ys : List Bool} → a ≡ b → xs ≡ ys → ◌≡◌ {A = List Bool} (a ∷ xs) (b ∷ ys)
    ap2 e k = cc
