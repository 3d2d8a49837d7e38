-- ===== src/Pos/Sales/Create.antt =====
-- createSale: the total is that of its lines, and a key makes one sale.
use modern_trade_website.Prelude.{
  ℕ, ◌||◌, ◌∙◌, inr, inl, List, ◌++◌, Bool-cases, length, refl, ◌≡◌, ◌∷◌, ◌*◌, ltb, ◌=?◌, is_empty,
  none, ap, sym, ◌==◌, leb, ◌≤◌, Option, ==_refl, arith, some, subst, false, [],
}
use modern_trade_website.Pos.Sales.{
  priced, current_price, SaleLine, priced_line, SaleError, sale_of_key, CreateSaleInput,
  create_sale, total_of, cons_ok, priced_row, sale_once, inserted, keyed, new_sale, absent_or,
}
use modern_trade_website.Pos.Rows.{is_npr, Price, is_cash, cash, Sale, Db, draft}
use modern_trade_website.Inventory.Issue.{Item}
use modern_trade_website.Prelude.Outcome.{err, Result, ok, ok_injective}
use modern_trade_website.Prelude.Table.Find.{head?-select_append}

module _ (now store : ℕ) (db : Db) (sale : ℕ) where
  -- A row that createSale writes for a line of the request.
  pub record IsPriced (l : SaleLine) (i : Item) : Type 0 where
    owner : i.owner_id ≡ sale
    product : l.product_id ≡ some i.product_id
    asked : i.quantity ≡ l.quantity
    at_least_one : 1 ≤ i.quantity
    at_most_999 : i.quantity ≤ 999
    paid_for : 1 ≤ i.unit_price
    catalogue :
        (q : Price) × (current_price now i.product_id store db ≡ some q) × (i.unit_price ≡ q.price)
    total : i.line_total ≡ i.unit_price * i.quantity

  -- The rows are those of the lines, one for each and in their order.
  abbrev pub ArePriced : List SaleLine → List Item → Type 0
  ArePriced [] [] = Unit
  ArePriced [] (i ∷ is) = ⊥
  ArePriced (l ∷ ls) [] = ⊥
  ArePriced (l ∷ ls) (i ∷ is) = IsPriced l i × ArePriced ls is

  priced_row-IsPriced :
      (l : SaleLine) (product : ℕ) (q : Option Price) (i : Item)
      → l.product_id ≡ some product
      → (ltb l.quantity 1 || ltb 999 l.quantity) ≡ false
      → current_price now product store db ≡ q
      → priced_row sale product l.quantity q ≡ ok i
      → IsPriced l i
  priced_row-IsPriced l product none i named k found h = cc
  priced_row-IsPriced l product (some q) i named k found h = elim (Bool-cases (leb q.price 0)) [
    | inl e ↦ cc (rw e at h)
    | inr e ↦
        let row : Item = record {
          owner_id = sale;
          product_id = product;
          quantity = l.quantity;
          unit_price = q.price;
          line_total = q.price * l.quantity;
        } in
        subst (IsPriced l) (ok_injective {x = row} (rw e at h)) (record {
          owner = refl;
          product = named;
          asked = refl;
          at_least_one = ground (arith, k);
          at_most_999 = ground (arith, k);
          paid_for = ground (arith, e);
          catalogue = (q, found, refl);
          total = refl;
        })
  ]

  priced_line-IsPriced :
      (l : SaleLine) (product : Option ℕ) (i : Item)
      → l.product_id ≡ product
      → priced_line now store sale db l.quantity product ≡ ok i
      → IsPriced l i
  priced_line-IsPriced l none i named h = cc
  priced_line-IsPriced l (some product) i named h =
      elim (Bool-cases (ltb l.quantity 1 || ltb 999 l.quantity)) [
        | inl e ↦ cc (rw e at h)
        | inr e ↦
            priced_row-IsPriced l product (current_price now product store db) i named e refl
              (rw e at h)
      ]

cons_ok-lem :
    (r : Result SaleError Item) (rest : Result SaleError (List Item)) (rows : List Item)
    → cons_ok r rest ≡ ok rows
    → (i : Item) × (is : List Item) × (r ≡ ok i) × (rest ≡ ok is) × (i ∷ is ≡ rows)
cons_ok-lem (err e) rest rows h = cc
cons_ok-lem (ok i) (err e) rows h = cc
cons_ok-lem (ok i) (ok is) rows h = (i, is, refl, refl, ok_injective h)

priced-ArePriced :
    (now store sale : ℕ) (db : Db) (ls : List SaleLine) (rows : List Item)
    → priced now store sale db ls ≡ ok rows
    → ArePriced now store db sale ls rows
unfolding priced
priced-ArePriced now store sale db [] rows h =
    subst (ArePriced now store db sale []) (ok_injective h) tt
priced-ArePriced now store sale db (l ∷ ls) rows h =
    let (i, is, first, later, both) =
      cons_ok-lem (priced_line now store sale db l.quantity l.product_id)
        (priced now store sale db ls) rows h in
    subst (ArePriced now store db sale (l ∷ ls)) both (
      priced_line-IsPriced now store db sale l l.product_id i refl first,
      priced-ArePriced now store sale db ls is later,
    )

-- A call that succeeds has passed the guards on the request.
past_guards :
    (input : CreateSaleInput) (id now : ℕ) (db : Db) (b : Sale)
    → (create_sale input id now db).0 ≡ ok b
    → (id' now' : ℕ) (db' : Db)
    → create_sale input id' now' db' ≡ keyed input id' now' db' input.idempotency_key
unfolding create_sale
past_guards input id now db b h id' now' db' = elim (Bool-cases (absent_or is_npr input.currency)) [
  | inr e ↦ cc (rw e at h)
  | inl e ↦ elim (Bool-cases (absent_or is_cash input.payment_method)) [
    | inr k ↦ cc (rw (e, k) at h)
    | inl k ↦ elim (Bool-cases (is_empty input.items || ltb 100 (length input.items))) [
      | inl n ↦ cc (rw (e, k, n) at h)
      | inr n ↦ rw (e, k, n) refl
    ]
  ]
]

inserted-ok :
    (input : CreateSaleInput) (key id : ℕ) (db : Db) (r : Result SaleError (List Item)) (b : Sale)
    → (inserted input key id db r).0 ≡ ok b
    → (rows : List Item) × (r ≡ ok rows)
      × (b ≡ new_sale input key id rows)
      × ((inserted input key id db r).1 ≡ record db {
        sales = db.sales ++ new_sale input key id rows ∷ [];
        items = db.items ++ rows;
      })
inserted-ok input key id db (err e) b h = cc
inserted-ok input key id db (ok rows) b h = (rows, refl, sym (ok_injective h), refl)

-- A successful createSale under a new key inserts one row for each line of the request, in their order:
-- of the line's product and quantity, which is from 1 to 999, at the positive price that the catalogue
-- has for the product in the store at that time, with price times quantity as the total. And it inserts
-- one sale, of that store, paid in cash, in draft, with the sum of these totals.
pub create_sale-total :
    (input : CreateSaleInput) (key id now : ℕ) (db : Db) (b : Sale)
    → input.idempotency_key ≡ some key
    → sale_of_key key db ≡ none
    → (create_sale input id now db).0 ≡ ok b
    → let db' = (create_sale input id now db).1 in
      (rows : List Item) × (db'.items ≡ db.items ++ rows)
      × ArePriced now input.store_id db id input.items rows
      × (db'.sales ≡ db.sales ++ b ∷ [])
      × (b.store_id ≡ input.store_id)
      × (b.total_amount ≡ total_of rows)
      × (b.payment_method ≡ cash)
      × (b.sale_status ≡ draft)
create_sale-total input key id now db b named fresh h =
    let whole = past_guards input id now db b h id now db in
    let here : create_sale input id now db
        ≡ inserted input key id db (priced now input.store_id id db input.items) =
      whole ∙ rw (named, fresh) refl in
    let (rows, lines, sale, after) =
      inserted-ok input key id db (priced now input.store_id id db input.items) b
        (sym (ap (λ r. r.0) here) ∙ h) in
    let good = priced-ArePriced now input.store_id id db input.items rows lines in
    (
      rows,
      ap (λ r. r.1.items) here ∙ ap (λ (d : Db). d.items) after,
      good,
      rw sale (ap (λ r. r.1.sales) here ∙ ap (λ (d : Db). d.sales) after),
      rw sale refl,
      rw sale refl,
      rw sale refl,
      rw sale refl,
    )

repeated :
    (input : CreateSaleInput) (key id now id' now' : ℕ) (db : Db) (b : Sale) (found : Option Sale)
    → sale_of_key key db ≡ found
    → (sale_once input key id now db found).0 ≡ ok b
    → let db' = (sale_once input key id now db found).1 in
      sale_once input key id' now' db' (sale_of_key key db') ≡ (ok b, db')
repeated input key id now id' now' db b (some sale) e h =
    elim (Bool-cases (sale.store_id == input.store_id)) [
      | inl k ↦ let same : sale ≡ b = ok_injective (rw k at h) in rw (k, e, k, same) refl
      | inr k ↦ cc (rw k at h)
    ]
repeated input key id now id' now' db b none e h =
    let (rows, lines, sale, after) =
      inserted-ok input key id db (priced now input.store_id id db input.items) b h in
    let row = new_sale input key id rows in
    let there : sale_of_key key
          (record db { sales = db.sales ++ row ∷ []; items = db.items ++ rows })
        ≡ some row =
      head?-select_append (λ (s : Sale). s.idempotency_key =? key) db.sales row e (==_refl key) in
    rw (after, there, ==_refl input.store_id, sale) refl

keyed_twice :
    (input : CreateSaleInput) (id now id' now' : ℕ) (db : Db) (b : Sale) (key : Option ℕ)
    → (keyed input id now db key).0 ≡ ok b
    → let db' = (keyed input id now db key).1 in keyed input id' now' db' key ≡ (ok b, db')
keyed_twice input id now id' now' db b none h = cc
keyed_twice input id now id' now' db b (some key) h =
    repeated input key id now id' now' db b (sale_of_key key db) refl h

-- A createSale that succeeded is idempotent: a second call of the same request, at any time and with
-- any new id, answers with the same sale and changes nothing.
pub create_sale-idempotent :
    (input : CreateSaleInput) (id now id' now' : ℕ) (db : Db) (b : Sale)
    → (create_sale input id now db).0 ≡ ok b
    → let db' = (create_sale input id now db).1 in create_sale input id' now' db' ≡ (ok b, db')
create_sale-idempotent input id now id' now' db b h =
    let whole = past_guards input id now db b h id now db in
    let again = past_guards input id now db b h id' now' (create_sale input id now db).1 in
    again
    ∙ subst (λ r. keyed input id' now' r.1 input.idempotency_key ≡ (ok b, r.1)) (sym whole)
        (keyed_twice input id now id' now' db b input.idempotency_key
          (sym (ap (λ r. r.0) whole) ∙ h))
