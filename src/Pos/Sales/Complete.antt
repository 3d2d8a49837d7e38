-- ===== src/Pos/Sales/Complete.antt =====
-- updateSaleStatus: what completing a sale does to the stock.
use modern_trade_website.Prelude.{
  leb, ◌||◌, ◌&&◌, ◌+◌, false, Bool-cases, ◌==◌, inl, ◌≤◌, ◌≡◌, inr, ◌∷◌, arith, ℕ, List, [],
  if◌then◌else◌,
}
use modern_trade_website.Inventory.Issue.{locked_batches, Item, Reference, issue_rows}
use modern_trade_website.Pos.Sales.{in_rows, sell_items, sale_of}
use modern_trade_website.Inventory.Rows.{stock, Shelf, IsWellFormed, Batch, held}
use modern_trade_website.Prelude.Table.{sum}
use modern_trade_website.Prelude.Int.{◌≤ℤ◌, ltb_ℤ, pos, ◌-ℤ◌, int_laws, parts_of_eq}
use modern_trade_website.Inventory.Issue.Product.{
  rows-stock, Issued, issue_locked-remaining, issue_locked, Issued-none, same_key, Issued-then,
  demand,
}
use modern_trade_website.Pos.Rows.{Sale}
use modern_trade_website.Prelude.Outcome.{ok}

-- What is held for carts and orders of a product in a store is in stock there.
abbrev pub IsHeldCovered : ℕ → ℕ → ℕ → Shelf → Type 0
IsHeldCovered now s p db = pos (held now s p db.reservations) ≤ℤ stock s p db.batches

-- One item that passes the check: enough is in the batches for it and for what is held.
enough_unheld :
    (quantity : ℕ) (rows : List Batch) (reserved : ℕ)
    → (leb quantity 0 || ltb_ℤ (pos (in_rows rows) -ℤ pos reserved) (pos quantity)) ≡ false
    → quantity + reserved ≤ in_rows rows
unfolding ◌-ℤ◌
enough_unheld quantity rows reserved h = ground arith

module _ (sale : Sale) (actor now : ℕ) (i : Item) (db : Shelf) (w : IsWellFormed db)
    (check : (leb i.quantity 0
        || ltb_ℤ
            (pos (in_rows (locked_batches sale.store_id i.product_id db))
              -ℤ pos (held now sale.store_id i.product_id db.reservations))
            (pos i.quantity))
      ≡ false) where
  abbrev ref : Reference
  ref = sale_of sale actor i

  abbrev after : Shelf
  after = (issue_rows ref (locked_batches sale.store_id i.product_id db) i.quantity db).0

  room :
      i.quantity + held now sale.store_id i.product_id db.reservations
      ≤ in_rows (locked_batches sale.store_id i.product_id db)
  room =
      enough_unheld i.quantity (locked_batches sale.store_id i.product_id db)
        (held now sale.store_id i.product_id db.reservations) check

  in_stock :
      pos (in_rows (locked_batches sale.store_id i.product_id db))
      ≡ stock sale.store_id i.product_id db.batches
  in_stock = rows-stock ref i.quantity db w

  Issued-item :
      Issued (λ s p. if sale.store_id == s && i.product_id == p then i.quantity else 0) db after
  Issued-item =
      let total = parts_of_eq in_stock in
      issue_locked ref i.quantity db w
        ((issue_locked-remaining ref i.quantity db w).1 (omega (arith, total, room)))

  item-IsHeldCovered : (s p : ℕ) → IsHeldCovered now s p db → IsHeldCovered now s p after
  item-IsHeldCovered s p h =
      let issued = Issued-item in
      let less = parts_of_eq (issued.stock_less s p) in
      let total = parts_of_eq in_stock in
      elim (Bool-cases (sale.store_id == s && i.product_id == p)) [
        | inl k ↦
            let (store, product) = same_key ref s p k in
            rw issued.reservations_same (
              omega
                (int_laws, rw k at less, rw (store, product) at total, rw (store, product) at room))
        | inr k ↦ rw issued.reservations_same (omega (int_laws, rw k at less, h))
      ]

pub sell_items-Issued :
    (sale : Sale) (actor now : ℕ) (is : List Item) (db : Shelf)
    → IsWellFormed db
    → (sell_items sale actor now is db).0 ≡ ok tt
    → Issued (demand sale.store_id is) db (sell_items sale actor now is db).1
unfolding sell_items sum
sell_items-Issued sale actor now [] db w h = Issued-none db w
sell_items-Issued sale actor now (i ∷ is) db w h =
    let batches = locked_batches sale.store_id i.product_id db in
    elim (Bool-cases (
      leb i.quantity 0
      || ltb_ℤ (pos (in_rows batches) -ℤ pos (held now sale.store_id i.product_id db.reservations))
          (pos i.quantity))) [
            | inl e ↦ cc (rw e at h)
            | inr e ↦
                let first = Issued-item sale actor now i db w e in
                let next = (issue_rows (sale_of sale actor i) batches i.quantity db).0 in
                let later =
                  sell_items-Issued sale actor now is next first.well_formed (rw e at h) in
                rw e (Issued-then _ _ db next (sell_items sale actor now is next).1 first later)
          ]

pub sell_items-IsHeldCovered :
    (sale : Sale) (actor now : ℕ) (is : List Item) (db : Shelf) (s p : ℕ)
    → IsWellFormed db
    → (sell_items sale actor now is db).0 ≡ ok tt
    → IsHeldCovered now s p db
    → IsHeldCovered now s p (sell_items sale actor now is db).1
unfolding sell_items
sell_items-IsHeldCovered sale actor now [] db s p w h c = c
sell_items-IsHeldCovered sale actor now (i ∷ is) db s p w h c =
    let batches = locked_batches sale.store_id i.product_id db in
    elim (Bool-cases (
      leb i.quantity 0
      || ltb_ℤ (pos (in_rows batches) -ℤ pos (held now sale.store_id i.product_id db.reservations))
          (pos i.quantity))) [
            | inl e ↦ cc (rw e at h)
            | inr e ↦
                let first = Issued-item sale actor now i db w e in
                let next = (issue_rows (sale_of sale actor i) batches i.quantity db).0 in
                rw e (
                  sell_items-IsHeldCovered sale actor now is next s p first.well_formed (rw e at h)
                    (item-IsHeldCovered sale actor now i db w e s p c))
          ]
