-- ===== src/Pos/Sales.antt =====
-- createSale, updateSaleStatus and attachCustomerToSale of backend/src/services/posService.ts. The
-- first two are transactions.
pub mod Create
pub mod Complete
pub mod Once
use modern_trade_website.Prelude.Int.{pos, ◌-ℤ◌, ltb_ℤ, pos_part}
use modern_trade_website.Prelude.Outcome.{
  err, modify, Result, M, ◌>>=◌, return, ok, ◌>>◌, transaction,
}
use modern_trade_website.Prelude.{
  ◌*◌, List, Option, ◌++◌, ◌&&◌, ltb, leb, ℕ, head?, ◌=?◌, none, ◌==◌, some, true, ◌+◌, is_empty,
  Bool, ◌||◌, ◌∷◌, length, is_some, not, [], if◌then◌else◌,
}
use modern_trade_website.Inventory.Issue.{items_of, issue_rows, Reference, Item, locked_batches}
use modern_trade_website.Pos.Rows.{
  SaleStatus, sale_includes, cash, is_npr, is_cash, voided, Price, Tender, Sale, same_sale_status,
  npr, Currency, Db, draft, completed, pending,
}
use modern_trade_website.Inventory.Rows.{Shelf, held, Batch, cash_pos, active}
use modern_trade_website.Prelude.Table.{update, select, sum, order_by}
use modern_trade_website.Inventory.Issue.Product.{rows}
use modern_trade_website.Payments.Rows.{total_amount}

pub data SaleError : Type 0 where
  npr_required cash_only invalid_items key_required key_conflict invalid_line price_unavailable :
      SaleError
  sale_not_found transition_unavailable cash_sale_required sale_empty insufficient_stock not_draft :
      SaleError

-- A line of the request. A quantity that is no whole number is refused like 0.
pub record SaleLine : Type 0 where
  pub product_id : Option ℕ
  pub quantity : ℕ

pub record CreateSaleInput : Type 0 where
  pub sale_number : ℕ
  pub customer_id : Option ℕ
  pub store_id : ℕ
  pub currency : Option Currency
  pub payment_method : Option Tender
  pub items : List SaleLine
  pub created_by : ℕ
  pub idempotency_key : Option ℕ

-- A value that is missing, or passes the test.
abbrev absent_or : {A : Type 0} → (A → Bool) → Option A → Bool
absent_or p none = true
absent_or p (some a) = p a

abbrev after_now : ℕ → Option ℕ → Bool
after_now now none = true
after_now now (some t) = ltb now t

-- active = TRUE AND valid_from <= NOW() AND (valid_to IS NULL OR valid_to > NOW())
abbrev pub is_current : ℕ → Price → Bool
is_current now q = q.active && (leb q.valid_from now && after_now now q.valid_to)

abbrev pub latest : List Price → Option Price
latest t = head? (order_by (λ q r. leb r.valid_from q.valid_from) t)

abbrev pub or_price : Option Price → Option Price → Option Price
or_price none q = q
or_price (some p) q = some p

-- The price of the store, else the price of all stores, of a product that is published.
unfoldable pub current_price : ℕ → ℕ → ℕ → Db → Option Price
current_price now product store db =
    let own = latest (
      select (λ q. q.product_id == product && (q.store_id =? store && is_current now q))
        db.prices) in
    let general = latest (
      select (λ q. q.product_id == product && (not (is_some q.store_id) && is_current now q))
        db.prices) in
    if is_some (head? (select (λ p. p.id == product && p.published) db.products))
    then or_price own general
    else none

abbrev priced_row : ℕ → ℕ → ℕ → Option Price → Result SaleError Item
priced_row sale product quantity none = err price_unavailable
priced_row sale product quantity (some q) =
    if leb q.price 0
    then err price_unavailable
    else ok (record {
      owner_id = sale;
      product_id = product;
      quantity = quantity;
      unit_price = q.price;
      line_total = q.price * quantity;
    })

abbrev pub priced_line : ℕ → ℕ → ℕ → Db → ℕ → Option ℕ → Result SaleError Item
priced_line now store sale db quantity none = err invalid_line
priced_line now store sale db quantity (some product) =
    if ltb quantity 1 || ltb 999 quantity
    then err invalid_line
    else priced_row sale product quantity (current_price now product store db)

abbrev cons_ok : Result SaleError Item → Result SaleError (List Item) → Result SaleError (List Item)
cons_ok (err e) rest = err e
cons_ok (ok i) (err e) = err e
cons_ok (ok i) (ok is) = ok (i ∷ is)

-- The loop that prices the lines: the first bad line ends it.
unfoldable pub priced : ℕ → ℕ → ℕ → Db → List SaleLine → Result SaleError (List Item)
priced now store sale db [] = ok []
priced now store sale db (l ∷ ls) =
    cons_ok (priced_line now store sale db l.quantity l.product_id) (priced now store sale db ls)

-- `total += linePaisa`
abbrev pub total_of : List Item → ℕ
total_of [] = 0
total_of (i ∷ is) = i.line_total + total_of is

abbrev pub new_sale : CreateSaleInput → ℕ → ℕ → List Item → Sale
new_sale input key id rows = record {
  id = id;
  sale_number = input.sale_number;
  customer_id = input.customer_id;
  store_id = input.store_id;
  total_amount = total_of rows;
  points_earned = 0;
  points_redeemed = 0;
  currency = npr;
  payment_method = cash;
  sale_status = draft;
  idempotency_key = some key;
  created_by = input.created_by;
  updated_by = none;
}

abbrev inserted :
    CreateSaleInput → ℕ → ℕ → Db → Result SaleError (List Item) → Result SaleError Sale × Db
inserted input key id db (err e) = (err e, db)
inserted input key id db (ok rows) =
    let sale = new_sale input key id rows in
    (ok sale, record db { sales = db.sales ++ sale ∷ []; items = db.items ++ rows })

-- SELECT * FROM sales WHERE idempotency_key = $1
abbrev pub sale_of_key : ℕ → Db → Option Sale
sale_of_key key db = head? (select (λ s. s.idempotency_key =? key) db.sales)

abbrev sale_once : CreateSaleInput → ℕ → ℕ → ℕ → Db → Option Sale → Result SaleError Sale × Db
sale_once input key id now db (some sale) =
    if sale.store_id == input.store_id then (ok sale, db) else (err key_conflict, db)
sale_once input key id now db none =
    inserted input key id db (priced now input.store_id id db input.items)

abbrev keyed : CreateSaleInput → ℕ → ℕ → Db → Option ℕ → Result SaleError Sale × Db
keyed input id now db none = (err key_required, db)
keyed input id now db (some key) = sale_once input key id now db (sale_of_key key db)

-- createSale; `id` is the id of a new row.
unfoldable pub create_sale : CreateSaleInput → ℕ → ℕ → M Db SaleError Sale
create_sale input id now db =
    if not (absent_or is_npr input.currency)
    then (err npr_required, db)
    else if not (absent_or is_cash input.payment_method)
    then (err cash_only, db)
    else if is_empty input.items || ltb 100 (length input.items)
    then (err invalid_items, db)
    else keyed input id now db input.idempotency_key

abbrev pub sale_of : Sale → ℕ → Item → Reference
sale_of sale actor i = record {
  store_id = sale.store_id;
  product_id = i.product_id;
  reference_id = sale.id;
  reference_type = cash_pos;
  performed_by = actor;
}

-- batches.rows.reduce((sum, batch) => sum + Number(batch.quantity), 0)
abbrev pub in_rows : List Batch → ℕ
in_rows = sum (λ _. true) (λ b. pos_part b.quantity)

-- The loop over the items: what is held for carts and orders is not sold.
unfoldable pub sell_items : Sale → ℕ → ℕ → List Item → M Shelf SaleError (Unit {0})
sell_items sale actor now [] db = (ok tt, db)
sell_items sale actor now (i ∷ is) db =
    let batches = locked_batches sale.store_id i.product_id db in
    let reserved = held now sale.store_id i.product_id db.reservations in
    let after = (issue_rows (sale_of sale actor i) batches i.quantity db).0 in
    let rest = sell_items sale actor now is after in
    if leb i.quantity 0 || ltb_ℤ (pos (in_rows batches) -ℤ pos reserved) (pos i.quantity)
    then (err insufficient_stock, db)
    else rest

abbrev pub with_status : SaleStatus → ℕ → Sale → Sale
with_status status actor s = record s { sale_status = status; updated_by = some actor }

abbrev on_shelf : M Shelf SaleError (Unit {0}) → M Db SaleError (Unit {0})
on_shelf m db = let (r, s) = m db.shelf in (r, record db { shelf = s })

-- `if (status === "COMPLETED")`: the guards of a cash sale, and the issue.
unfoldable pub complete : Sale → ℕ → ℕ → M Db SaleError (Unit {0})
complete sale actor now db =
    let items = items_of sale.id db.items in
    if not (is_cash sale.payment_method && is_npr sale.currency)
    then (err cash_sale_required, db)
    else if is_empty items
    then (err sale_empty, db)
    else on_shelf (sell_items sale actor now items) db

-- From the locked row on.
unfoldable pub change_status : SaleStatus → ℕ → ℕ → Sale → M Db SaleError Sale
change_status status actor now sale db =
    let change : M Db SaleError Sale =
      (λ d. if same_sale_status status completed then complete sale actor now d else (ok tt, d))
      >> modify (λ d. record d {
        sales = update (λ s. s.id == sale.id) (with_status status actor) d.sales;
      })
      >> return (with_status status actor sale) in
    if same_sale_status sale.sale_status status
    then (ok sale, db)
    else if not (sale_includes (draft ∷ pending ∷ []) sale.sale_status)
        || not (sale_includes (pending ∷ completed ∷ voided ∷ []) status)
    then (err transition_unavailable, db)
    else change db

abbrev pub find_sale : ℕ → Db → Option Sale
find_sale id db = head? (select (λ s. s.id == id) db.sales)

abbrev pub sale_found : Option Sale → Result SaleError Sale
sale_found none = err sale_not_found
sale_found (some s) = ok s

-- updateSaleStatus
unfoldable pub update_sale_status : ℕ → SaleStatus → ℕ → ℕ → M Db SaleError Sale
update_sale_status id status actor now =
    transaction ((λ db. (sale_found (find_sale id db), db)) >>= change_status status actor now)

abbrev is_draft : ℕ → Sale → Bool
is_draft id s = s.id == id && same_sale_status s.sale_status draft

abbrev attached : ℕ → Option Sale → Result SaleError Sale
attached customer none = err not_draft
attached customer (some s) = ok (record s { customer_id = some customer })

-- attachCustomerToSale
unfoldable pub attach_customer_to_sale : ℕ → ℕ → M Db SaleError Sale
attach_customer_to_sale id customer db = (
  attached customer (head? (select (is_draft id) db.sales)),
  record db {
    sales = update (is_draft id) (λ s. record s { customer_id = some customer }) db.sales;
  },
)
