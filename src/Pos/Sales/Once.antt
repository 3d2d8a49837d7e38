-- ===== src/Pos/Sales/Once.antt =====
-- updateSaleStatus as a whole: a completion, and a second one.
use modern_trade_website.Pos.Sales.{
  sale_found, update_sale_status, change_status, sell_items, with_status, SaleError, find_sale,
  complete,
}
use modern_trade_website.Prelude.{
  Bool-cases, false, ap, ◌∙◌, some, refl, ◌&&◌, sym, ◌∷◌, ◌==◌, inr, ℕ, is_empty, true, none, ◌≡◌,
  Option, inl, [], subst,
}
use modern_trade_website.Pos.Sales.Complete.{
  sell_items-IsHeldCovered, sell_items-Issued, IsHeldCovered,
}
use modern_trade_website.Prelude.Outcome.{
  ok_injective, Result, then-ok, transaction-ok, ◌>>◌, continue, ◌>>=◌, return, M, ok, modify,
}
use modern_trade_website.Pos.Rows.{
  same_sale_status, is_cash, Sale, sale_includes, is_npr, Db, completed, draft, pending,
}
use modern_trade_website.Inventory.Rows.{IsWellFormed, AllNonneg, stock, Shelf, moved}
use modern_trade_website.Prelude.Table.Find.{find-update_self, find-key}
use modern_trade_website.Inventory.Issue.{items_of}
use modern_trade_website.Inventory.Issue.Product.{demand}
use modern_trade_website.Prelude.Int.{pos, ◌-ℤ◌}
use modern_trade_website.Prelude.Table.{update}

abbrev pub complete_sale : ℕ → ℕ → ℕ → Db → Result SaleError Sale × Db
complete_sale id actor now db = update_sale_status id completed actor now db

-- The tables after the completion of a sale whose items were issued.
abbrev completed_db : Sale → ℕ → Db → Shelf → Db
completed_db sale actor db shelf = record db {
  sales = update (λ s. s.id == sale.id) (with_status completed actor) db.sales;
  shelf = shelf;
}

complete-ok :
    (sale : Sale) (actor now : ℕ) (db : Db)
    → (complete sale actor now db).0 ≡ ok tt
    → ((sell_items sale actor now (items_of sale.id db.items) db.shelf).0 ≡ ok tt)
      × ((complete sale actor now db).1 ≡ record db {
        shelf = (sell_items sale actor now (items_of sale.id db.items) db.shelf).1;
      })
unfolding complete
complete-ok sale actor now db h =
    elim (Bool-cases (is_cash sale.payment_method && is_npr sale.currency)) [
      | inr e ↦ cc (rw e at h)
      | inl e ↦ elim (Bool-cases (is_empty (items_of sale.id db.items))) [
        | inl k ↦ cc (rw (e, k) at h)
        | inr k ↦ rw (e, k) (rw (e, k) at h, refl)
      ]
    ]

change-ok :
    (sale : Sale) (actor now : ℕ) (db : Db) (b : Sale)
    → same_sale_status sale.sale_status completed ≡ false
    → (change_status completed actor now sale db).0 ≡ ok b
    → ((sell_items sale actor now (items_of sale.id db.items) db.shelf).0 ≡ ok tt)
      × (change_status completed actor now sale db ≡ (
        ok (with_status completed actor sale),
        completed_db sale actor db
            (sell_items sale actor now (items_of sale.id db.items) db.shelf).1,
      ))
unfolding change_status
change-ok sale actor now db b n h =
    let issue : M Db SaleError (Unit {0}) = complete sale actor now in
    let write : M Db SaleError (Unit {0}) = modify (λ d. record d {
      sales = update (λ s. s.id == sale.id) (with_status completed actor) d.sales;
    }) in
    let answer = with_status completed actor sale in
    elim (Bool-cases (sale_includes (draft ∷ pending ∷ []) sale.sale_status)) [
      | inr e ↦ cc (rw (n, e) at h)
      | inl e ↦
          let last = then-ok (issue >> write) (λ _. return answer) db b (rw (n, e) at h) in
          let first = then-ok issue (λ _. write) db tt last.1 in
          let (sold, shelf) = complete-ok sale actor now db first.1 in
          rw (n, e) (sold, last.2 ∙ ap (λ r. (ok answer, r.1)) first.2 ∙ rw shelf refl)
    ]

sale_found-ok : (r : Option Sale) (s : Sale) → sale_found r ≡ ok s → r ≡ some s
sale_found-ok none s h = cc
sale_found-ok (some x) s h = cc

-- A completion that succeeds, of a sale that was not completed.
completion :
    (id actor now : ℕ) (db : Db) (b sale : Sale)
    → find_sale id db ≡ some sale
    → same_sale_status sale.sale_status completed ≡ false
    → (complete_sale id actor now db).0 ≡ ok b
    → ((sell_items sale actor now (items_of sale.id db.items) db.shelf).0 ≡ ok tt)
      × (complete_sale id actor now db ≡ (
        ok (with_status completed actor sale),
        completed_db sale actor db
            (sell_items sale actor now (items_of sale.id db.items) db.shelf).1,
      ))
unfolding update_sale_status
completion id actor now db b sale row n h =
    let find : M Db SaleError Sale = λ d. (sale_found (find_sale id d), d) in
    let whole = transaction-ok (find >>= change_status completed actor now) db b h in
    let rest = ap (λ o. continue (sale_found o, db) (change_status completed actor now)) row in
    let passed = change-ok sale actor now db b n (sym (ap (λ r. r.0) (whole ∙ rest)) ∙ h) in
    (passed.0, whole ∙ rest ∙ passed.1)

-- Completing a sale that was not completed, on a stock table with distinct ids and no negative
-- quantity, lowers the stock of every product in every store by exactly what the sale's items ask of
-- it, in the sale's store, writes what it takes to the movements, keeps every batch at or above 0,
-- and leaves every reservation as it is.
pub complete_sale-stock :
    (id actor now : ℕ) (db : Db) (b sale : Sale) (s p : ℕ)
    → find_sale id db ≡ some sale
    → same_sale_status sale.sale_status completed ≡ false
    → IsWellFormed db.shelf
    → (complete_sale id actor now db).0 ≡ ok b
    → let db' = (complete_sale id actor now db).1 in
      (stock s p db'.shelf.batches
        ≡ stock s p db.shelf.batches -ℤ pos (demand sale.store_id (items_of sale.id db.items) s p))
      × (stock s p db'.shelf.batches -ℤ moved s p db'.shelf.movements
          ≡ stock s p db.shelf.batches -ℤ moved s p db.shelf.movements)
      × AllNonneg db'.shelf.batches
      × (db'.shelf.reservations ≡ db.shelf.reservations)
complete_sale-stock id actor now db b sale s p row n w h =
    let (sold, after) = completion id actor now db b sale row n h in
    let issued = sell_items-Issued sale actor now (items_of sale.id db.items) db.shelf w sold in
    rw after (
      issued.stock_less s p,
      issued.written s p,
      issued.well_formed.nonneg,
      issued.reservations_same,
    )

-- Completing a sale that was not completed, on a stock table with distinct ids and no negative
-- quantity, sells nothing that is held for an order or for a cart that has not expired: for a
-- product in a store, where all that is held was in stock before, it is in stock after.
pub complete_sale-IsHeldCovered :
    (id actor now : ℕ) (db : Db) (b sale : Sale) (s p : ℕ)
    → find_sale id db ≡ some sale
    → same_sale_status sale.sale_status completed ≡ false
    → IsWellFormed db.shelf
    → IsHeldCovered now s p db.shelf
    → (complete_sale id actor now db).0 ≡ ok b
    → IsHeldCovered now s p (complete_sale id actor now db).1.shelf
complete_sale-IsHeldCovered id actor now db b sale s p row n w c h =
    let (sold, after) = completion id actor now db b sale row n h in
    rw after
      (sell_items-IsHeldCovered sale actor now (items_of sale.id db.items) db.shelf s p w sold c)

again_done :
    (id actor now : ℕ) (db : Db) (sale : Sale)
    → find_sale id db ≡ some sale
    → same_sale_status sale.sale_status completed ≡ true
    → complete_sale id actor now db ≡ (ok sale, db)
unfolding update_sale_status change_status
again_done id actor now db sale row n = rw (row, n) refl

-- A sale is completed once: after a completion that succeeded, of a sale that was not completed, the
-- sale is COMPLETED in the table, and a second completion answers with the same sale and takes
-- nothing more from the stock, nor changes any other table.
pub complete_sale-once :
    (id actor now actor' now' : ℕ) (db : Db) (b sale : Sale)
    → find_sale id db ≡ some sale
    → same_sale_status sale.sale_status completed ≡ false
    → (complete_sale id actor now db).0 ≡ ok b
    → let db' = (complete_sale id actor now db).1 in
      (find_sale id db' ≡ some b)
      × (b.sale_status ≡ completed)
      × (complete_sale id actor' now' db' ≡ (ok b, db'))
complete_sale-once id actor now actor' now' db b sale row n h =
    let (sold, after) = completion id actor now db b sale row n h in
    let done = with_status completed actor sale in
    let own = find-key (λ (s : Sale). s.id) id db.sales row in
    let same : done ≡ b = ok_injective (sym (ap (λ r. r.0) after) ∙ h) in
    let written : find_sale id (complete_sale id actor now db).1 ≡ some done = rw after (
      subst
        (λ i.
          find_sale id
            (record db { sales = update (λ s. s.id == i) (with_status completed actor) db.sales })
          ≡ some done)
        (sym own)
        (find-update_self (λ (s : Sale). s.id) id (with_status completed actor) db.sales (λ s. refl)
          row)) in
    (
      written ∙ ap (λ x. some x) same,
      ap (λ (s : Sale). s.sale_status) (sym same),
      again_done id actor' now' (complete_sale id actor now db).1 done written refl
          ∙ ap (λ s. (ok s, (complete_sale id actor now db).1)) same,
    )
