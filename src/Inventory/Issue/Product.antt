-- ===== src/Inventory/Issue/Product.antt =====
-- The whole issue of one product, and of a list of items.
use modern_trade_website.Prelude.{
  ℕ, ◌+◌, ◌≡◌, ◌≢◌, ◌⊎◌, ◌↔◌, refl, sym, ◌∙◌, subst, Bool, true, false, List, arith, ◌&&◌, ◌==◌,
  if◌then◌else◌, min, Bool-cases, inl, inr, All, All-imp, &&_left, &&_right,
}
use modern_trade_website.Prelude.Int.{pos, ◌-ℤ◌, ◌≤ℤ◌, int_laws, parts_of_eq}
use modern_trade_website.Prelude.Table.{sum, Distinct}
use modern_trade_website.Inventory.Rows.{
  Batch, Shelf, of_product, has_stock, stock, moved, AllNonneg, IsWellFormed,
}
use modern_trade_website.Inventory.Fifo.Loop.{
  of_product_other, AreFrom, on_hand, deduct_rows-remaining, deduct_rows-stock,
  deduct_rows-stock_ne, deduct_rows-AllNonneg, deduct_rows-Distinct,
}
use modern_trade_website.Prelude.Table.Order.{order_by-select-All}
use modern_trade_website.Inventory.Fifo.Order.{select-AreFrom}
use modern_trade_website.Inventory.Fifo.Exact.{on_hand-stock}
use modern_trade_website.Inventory.Issue.{
  Reference, Item, by_expiry_created, locked_batches, issue_rows, deliver_rows,
}
use modern_trade_website.Inventory.Issue.Laws.{
  issue_rows-batches, issue_rows-gap, deliver-issue_rows,
}

-- From `db` to `db'` the stock of each product in each store fell by `taken`, and what fell was
-- written down.
pub record Issued (taken : ℕ → ℕ → ℕ) (db db' : Shelf) : Type 0 where
  pub well_formed : IsWellFormed db'
  pub stock_less : (s p : ℕ) → stock s p db'.batches ≡ stock s p db.batches -ℤ pos (taken s p)
  pub written :
      (s p : ℕ)
      → stock s p db'.batches -ℤ moved s p db'.movements
        ≡ stock s p db.batches -ℤ moved s p db.movements
  pub reservations_same : db'.reservations ≡ db.reservations

abbrev wanted : ℕ → ℕ → Batch → Bool
wanted s p b = of_product s p b && has_stock b

-- What an item takes of product p in store s, from the store of the sale.
abbrev pub item_of : ℕ → ℕ → ℕ → Item → Bool
item_of store s p i = store == s && i.product_id == p

abbrev pub demand : ℕ → List Item → ℕ → ℕ → ℕ
demand store items s p = sum (item_of store s p) (λ i. i.quantity) items

pub same_key :
    (ref : Reference) (s p : ℕ)
    → (ref.store_id == s && ref.product_id == p) ≡ true
    → (ref.store_id ≡ s) × (ref.product_id ≡ p)
same_key ref s p e = ground arith

other_key :
    (ref : Reference) (s p : ℕ)
    → (ref.store_id == s && ref.product_id == p) ≡ false
    → (s ≢ ref.store_id) ⊎ (p ≢ ref.product_id)
other_key ref s p e = ground arith

module _ (ref : Reference) (n : ℕ) (db : Shelf) (w : IsWellFormed db) where
  abbrev pub rows : List Batch
  rows = locked_batches ref.store_id ref.product_id db

  rows-AreFrom : AreFrom db.batches rows
  unfolding locked_batches
  rows-AreFrom =
      select-AreFrom by_expiry_created (wanted ref.store_id ref.product_id) db.batches w.unique

  rows-wanted : All (λ b. wanted ref.store_id ref.product_id b ≡ true) rows
  unfolding locked_batches
  rows-wanted =
      order_by-select-All by_expiry_created (wanted ref.store_id ref.product_id) db.batches

  rows-of_product : All (λ b. of_product ref.store_id ref.product_id b ≡ true) rows
  rows-of_product =
      All-imp (λ b. wanted ref.store_id ref.product_id b ≡ true)
        (λ b. of_product ref.store_id ref.product_id b ≡ true)
        (λ b e. &&_left (of_product ref.store_id ref.product_id b) (has_stock b) e) rows rows-wanted

  rows-has_stock : All (λ b. has_stock b ≡ true) rows
  rows-has_stock =
      All-imp (λ b. wanted ref.store_id ref.product_id b ≡ true) (λ b. has_stock b ≡ true)
        (λ b e. &&_right (of_product ref.store_id ref.product_id b) (has_stock b) e) rows
        rows-wanted

  pub rows-stock : pos (on_hand rows) ≡ stock ref.store_id ref.product_id db.batches
  unfolding locked_batches
  rows-stock = on_hand-stock by_expiry_created ref.store_id ref.product_id db.batches w.nonneg

  -- The web orders' loop is the POS's.
  pub deliver_locked : deliver_rows ref rows n db ≡ issue_rows ref rows n db
  deliver_locked = deliver-issue_rows ref rows n db rows-has_stock

  -- Nothing is left to take exactly if the stock suffices.
  pub issue_locked-remaining :
      ((issue_rows ref rows n db).1 ≡ 0) ↔ (pos n ≤ℤ stock ref.store_id ref.product_id db.batches)
  issue_locked-remaining =
      let held = parts_of_eq rows-stock in
      let left = deduct_rows-remaining rows n db.batches in
      let same = (issue_rows-batches ref rows n db).1 in
      (λ e. omega (arith, held, left, same, e), λ h. omega (arith, held, left, same, h))

  rows_other :
      (s p : ℕ)
      → (s ≢ ref.store_id) ⊎ (p ≢ ref.product_id)
      → All (λ b. of_product s p b ≡ false) rows
  rows_other s p other =
      All-imp (λ b. of_product ref.store_id ref.product_id b ≡ true) (λ b. of_product s p b ≡ false)
        (λ b. of_product_other ref.store_id ref.product_id s p b other) rows rows-of_product

  issued_here :
      (s p : ℕ)
      → (issue_rows ref rows n db).1 ≡ 0
      → stock s p (issue_rows ref rows n db).0.batches
        ≡ stock s p db.batches -ℤ pos (if ref.store_id == s && ref.product_id == p then n else 0)
  issued_here s p e =
      let left = deduct_rows-remaining rows n db.batches in
      let (table, same, reservations) = issue_rows-batches ref rows n db in
      let whole : min n (on_hand rows) ≡ n = omega (arith, left, same, e) in
      elim (Bool-cases (ref.store_id == s && ref.product_id == p)) [
        | inl k ↦
            let (store, product) = same_key ref s p k in
            rw (k, table, ← store, ← product)
              (rw whole at (
                deduct_rows-stock rows n db.batches ref.store_id ref.product_id rows-AreFrom
                  rows-of_product))
        | inr k ↦
            let other = parts_of_eq (
              deduct_rows-stock_ne rows n db.batches s p rows-AreFrom
                (rows_other s p (other_key ref s p k))) in
            rw (k, table) (omega (int_laws, other))
      ]

  -- Where nothing is left to take, the issue lowered the one stock by the whole quantity.
  pub issue_locked :
      (issue_rows ref rows n db).1 ≡ 0
      → Issued
          (λ s p. if ref.store_id == s && ref.product_id == p then n else 0)
          db
          (issue_rows ref rows n db).0
  issue_locked e =
      let (table, left, reservations) = issue_rows-batches ref rows n db in
      record {
        well_formed = record {
          unique =
              subst (Distinct (λ b. b.id)) (sym table)
                (deduct_rows-Distinct rows n db.batches w.unique);
          nonneg =
              subst AllNonneg (sym table)
                (deduct_rows-AllNonneg rows n db.batches rows-AreFrom w.nonneg);
        };
        stock_less = λ s p. issued_here s p e;
        written = λ s p. issue_rows-gap ref rows n db s p rows-AreFrom rows-of_product;
        reservations_same = reservations;
      }

-- One issue after another.
pub Issued-then :
    (f g : ℕ → ℕ → ℕ) (a b c : Shelf)
    → Issued f a b
    → Issued g b c
    → Issued (λ s p. f s p + g s p) a c
Issued-then f g a b c i j = record {
  well_formed = j.well_formed;
  stock_less = λ s p.
      let first = parts_of_eq (i.stock_less s p) in
      let second = parts_of_eq (j.stock_less s p) in omega (int_laws, first, second);
  written = λ s p. j.written s p ∙ i.written s p;
  reservations_same = j.reservations_same ∙ i.reservations_same;
}

pub Issued-none : (db : Shelf) → IsWellFormed db → Issued (λ s p. 0) db db
Issued-none db w = record {
  well_formed = w;
  stock_less = λ s p. omega int_laws;
  written = λ s p. refl;
  reservations_same = refl;
}
