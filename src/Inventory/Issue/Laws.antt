-- ===== src/Inventory/Issue/Laws.antt =====
-- The loops of Issue take what deductFromBatch takes, and write down what they take.
use mathlib.Core.List.{Memᴰ}
use modern_trade_website.Prelude.{
  ℕ, ◌-◌, ◌≡◌, refl, ap, ◌∙◌, true, false, List, [], ◌∷◌, ◌++◌, arith, ◌&&◌, ◌==◌, leb,
  if◌then◌else◌, Bool-cases, inl, inr, All,
}
use modern_trade_website.Prelude.Int.{pos, ◌+ℤ◌, ◌-ℤ◌, int_laws, parts_of_eq}
use modern_trade_website.Prelude.Table.{sum_ℤ, Distinct}
use modern_trade_website.Prelude.Table.Keyed.{sum_ℤ-append}
use modern_trade_website.Inventory.Rows.{
  Batch, Movement, Shelf, of_product, has_stock, stock, moves, moved,
}
use modern_trade_website.Inventory.Fifo.{portion, deduct_rows}
use modern_trade_website.Inventory.Fifo.Loop.{AreFrom, AreFrom-step, stock-take_from}
use modern_trade_website.Inventory.Issue.{Reference, issue_one, issue_rows, deliver_rows}

-- The batches and the remainder are those of the loop without movements.
pub issue_rows-batches :
    (ref : Reference) (rows : List Batch) (n : ℕ) (db : Shelf)
    → ((issue_rows ref rows n db).0.batches ≡ (deduct_rows rows n db.batches).0)
      × ((issue_rows ref rows n db).1 ≡ (deduct_rows rows n db.batches).1)
      × ((issue_rows ref rows n db).0.reservations ≡ db.reservations)
unfolding issue_rows deduct_rows issue_one
issue_rows-batches ref [] n db = (refl, refl, refl)
issue_rows-batches ref (b ∷ bs) n db = elim (Bool-cases (leb n 0)) [
  | inl e ↦ rw e (refl, refl, refl)
  | inr e ↦ rw e (issue_rows-batches ref bs (n - portion n b) (issue_one ref (portion n b) b db))
]

takes : (n : ℕ) (b : Batch) → leb n 0 ≡ false → has_stock b ≡ true → leb (portion n b) 0 ≡ false
takes n b e h = ground arith

abbrev movement_of : Reference → ℕ → Batch → Movement
movement_of ref d b = record {
  store_id = ref.store_id;
  product_id = ref.product_id;
  batch_id = b.batch_id;
  quantity = pos 0 -ℤ pos d;
  reference_id = ref.reference_id;
  reference_type = ref.reference_type;
  performed_by = ref.performed_by;
}

moved-append :
    (s p : ℕ) (ms : List Movement) (m : Movement)
    → moved s p (ms ++ m ∷ []) ≡ moved s p ms +ℤ (if moves s p m then m.quantity else pos 0)
unfolding sum_ℤ
moved-append s p ms m =
    sum_ℤ-append (moves s p) (λ x. x.quantity) ms (m ∷ [])
    ∙ ap (λ z. moved s p ms +ℤ z) (omega int_laws)

module _ (ref : Reference) (s p : ℕ) (b : Batch) where
  same_product :
      of_product ref.store_id ref.product_id b ≡ true
      → of_product s p b ≡ true
      → (ref.store_id == s && ref.product_id == p) ≡ true
  same_product k e = ground arith

  other_product :
      of_product ref.store_id ref.product_id b ≡ true
      → of_product s p b ≡ false
      → (ref.store_id == s && ref.product_id == p) ≡ false
  other_product k e = ground arith

issue_one-AreFrom :
    (ref : Reference) (d : ℕ) (b : Batch) (rows : List Batch) (db : Shelf)
    → AreFrom db.batches (b ∷ rows)
    → AreFrom (issue_one ref d b db).batches rows
unfolding issue_one
issue_one-AreFrom ref d b rows db f = AreFrom-step d b rows db.batches f

-- On rows with stock the guard of the web orders never fires.
pub deliver-issue_rows :
    (ref : Reference) (rows : List Batch) (n : ℕ) (db : Shelf)
    → All (λ b. has_stock b ≡ true) rows
    → deliver_rows ref rows n db ≡ issue_rows ref rows n db
unfolding issue_rows deliver_rows
deliver-issue_rows ref [] n db h = refl
deliver-issue_rows ref (b ∷ bs) n db h = elim (Bool-cases (leb n 0)) [
  | inl e ↦ rw e refl
  | inr e ↦
      let some_taken : leb (portion n b) 0 ≡ false = takes n b e h.0 in
      rw (e, some_taken)
        (deliver-issue_rows ref bs (n - portion n b) (issue_one ref (portion n b) b db) h.1)
]

-- One round changes the stock and the sum of the movements alike.
issue_one-gap :
    (ref : Reference) (d : ℕ) (b : Batch) (db : Shelf) (s p : ℕ)
    → Memᴰ b db.batches
    → Distinct (λ x. x.id) db.batches
    → of_product ref.store_id ref.product_id b ≡ true
    → let db' = issue_one ref d b db in
      stock s p db'.batches -ℤ moved s p db'.movements
      ≡ stock s p db.batches -ℤ moved s p db.movements
unfolding issue_one
issue_one-gap ref d b db s p m u k =
    let taken = parts_of_eq (stock-take_from d b db.batches s p m u) in
    let written = parts_of_eq (moved-append s p db.movements (movement_of ref d b)) in
    elim (Bool-cases (of_product s p b)) [
      | inl e ↦
          let same : moves s p (movement_of ref d b) ≡ true = same_product ref s p b k e in
          omega (int_laws, rw e at taken, rw same at written)
      | inr e ↦
          let other : moves s p (movement_of ref d b) ≡ false = other_product ref s p b k e in
          omega (int_laws, rw e at taken, rw other at written)
    ]

-- So the loop keeps the difference between the stock and the sum of the movements.
pub issue_rows-gap :
    (ref : Reference) (rows : List Batch) (n : ℕ) (db : Shelf) (s p : ℕ)
    → AreFrom db.batches rows
    → All (λ b. of_product ref.store_id ref.product_id b ≡ true) rows
    → let db' = (issue_rows ref rows n db).0 in
      stock s p db'.batches -ℤ moved s p db'.movements
      ≡ stock s p db.batches -ℤ moved s p db.movements
unfolding issue_rows
issue_rows-gap ref [] n db s p f h = refl
issue_rows-gap ref (b ∷ bs) n db s p f h = elim (Bool-cases (leb n 0)) [
  | inl e ↦ rw e refl
  | inr e ↦
      let d = portion n b in
      let db' = issue_one ref d b db in
      rw e (
        issue_rows-gap ref bs (n - d) db' s p (issue_one-AreFrom ref d b bs db f) h.1
        ∙ issue_one-gap ref d b db s p f.members.0 f.unique h.0)
]
