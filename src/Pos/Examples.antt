-- ===== src/Pos/Examples.antt =====
-- A sale at the till, at concrete tables.
use modern_trade_website.Pos.Sales.{
  current_price, total_of, complete, sell_items, create_sale, with_status, priced,
  update_sale_status, sale_of_key, find_sale, CreateSaleInput, change_status, new_sale,
}
use modern_trade_website.Inventory.Rows.{
  IsWellFormed, AllNonneg, Reservation, stock, Batch, active, moved,
}
use modern_trade_website.Inventory.Issue.{locked_batches, issue_one, issue_rows, Item, items_of}
use modern_trade_website.Pos.Sales.Complete.{IsHeldCovered}
use modern_trade_website.Prelude.Table.{sum_ℤ, update, select, order_by, sum, insert_by}
use modern_trade_website.Prelude.{◌≡◌, true, refl, List, some, none, ◌∷◌, ◌++◌, arith, []}
use modern_trade_website.Pos.Rows.{Sale, cash, Price, draft, Db, completed}
use modern_trade_website.Prelude.Int.{◌-ℤ◌, ◌+ℤ◌, pos}
use modern_trade_website.Inventory.Fifo.{take_from}
use modern_trade_website.Pos.Sales.Once.{
  complete_sale-IsHeldCovered, complete_sale-stock, complete_sale-once, complete_sale,
}
use modern_trade_website.Pos.Sales.Create.{create_sale-total, ArePriced, create_sale-idempotent}
use modern_trade_website.Prelude.Outcome.{ok}
use modern_trade_website.Inventory.Issue.Product.{demand}

abbrev rice : Batch
rice = record {
  id = 1;
  store_id = 1;
  product_id = 7;
  batch_id = 11;
  expiry_date = 20;
  quantity = pos 3;
  created_at = 1;
}

abbrev held_rice : Reservation
held_rice = record {
  reservation_id = 5;
  cart_id = some 9;
  order_id = none;
  product_id = 7;
  store_id = 1;
  batch_id = none;
  quantity = 1;
  reserved_at = 100;
  expires_at = 900;
  status = active;
}

abbrev rice_price : Price
rice_price = record {
  product_id = 7;
  store_id = none;
  price = 12550;
  active = true;
  valid_from = 1;
  valid_to = none;
}

abbrev open_till : Db
open_till = record {
  sales = [];
  items = [];
  products = record { id = 7; published = true } ∷ [];
  prices = rice_price ∷ [];
  shelf = record { batches = rice ∷ []; reservations = held_rice ∷ []; movements = [] };
}

abbrev request : CreateSaleInput
request = record {
  sale_number = 1001;
  customer_id = none;
  store_id = 1;
  currency = none;
  payment_method = some cash;
  items = record { product_id = some 7; quantity = 2 } ∷ [];
  created_by = 4;
  idempotency_key = some 77;
}

abbrev sold_rice : Item
sold_rice = record {
  owner_id = 50;
  product_id = 7;
  quantity = 2;
  unit_price = 12550;
  line_total = 25100;
}

abbrev new_row : Sale
new_row = new_sale request 77 50 (sold_rice ∷ [])

created : (create_sale request 50 300 open_till).0 ≡ ok new_row
unfolding create_sale priced current_price select order_by insert_by
created = refl

no_sale : sale_of_key 77 open_till ≡ none
unfolding select
no_sale = refl

create_sale-total_example :
    let db' = (create_sale request 50 300 open_till).1 in
    (rows : List Item) × (db'.items ≡ open_till.items ++ rows)
    × ArePriced 300 request.store_id open_till 50 request.items rows
    × (db'.sales ≡ open_till.sales ++ new_row ∷ [])
    × (new_row.store_id ≡ request.store_id)
    × (new_row.total_amount ≡ total_of rows)
    × (new_row.payment_method ≡ cash)
    × (new_row.sale_status ≡ draft)
create_sale-total_example =
    create_sale-total request 77 50 300 open_till new_row refl no_sale created

create_sale-idempotent_example :
    let db' = (create_sale request 50 300 open_till).1 in
    create_sale request 51 400 db' ≡ (ok new_row, db')
create_sale-idempotent_example =
    create_sale-idempotent request 50 300 51 400 open_till new_row created

abbrev rung_up : Db
rung_up = record open_till { sales = new_row ∷ []; items = sold_rice ∷ [] }

the_sale : find_sale 50 rung_up ≡ some new_row
unfolding select
the_sale = refl

completed_ok : (complete_sale 50 4 500 rung_up).0 ≡ ok (with_status completed 4 new_row)
unfolding update_sale_status change_status complete sell_items locked_batches select order_by
    insert_by issue_rows issue_one take_from update sum ◌-ℤ◌
completed_ok = refl

till-IsWellFormed : IsWellFormed rung_up.shelf
till-IsWellFormed = record { unique = omega arith; nonneg = omega arith }

till-IsHeldCovered : IsHeldCovered 500 1 7 rung_up.shelf
unfolding sum sum_ℤ ◌+ℤ◌
till-IsHeldCovered = omega arith

complete_sale-stock_example :
    let db' = (complete_sale 50 4 500 rung_up).1 in
    (stock 1 7 db'.shelf.batches
      ≡ stock 1 7 rung_up.shelf.batches -ℤ pos (demand 1 (items_of 50 rung_up.items) 1 7))
    × (stock 1 7 db'.shelf.batches -ℤ moved 1 7 db'.shelf.movements
        ≡ stock 1 7 rung_up.shelf.batches -ℤ moved 1 7 rung_up.shelf.movements)
    × AllNonneg db'.shelf.batches
    × (db'.shelf.reservations ≡ rung_up.shelf.reservations)
complete_sale-stock_example =
    complete_sale-stock 50 4 500 rung_up (with_status completed 4 new_row) new_row 1 7 the_sale refl
      till-IsWellFormed completed_ok

complete_sale-IsHeldCovered_example : IsHeldCovered 500 1 7 (complete_sale 50 4 500 rung_up).1.shelf
complete_sale-IsHeldCovered_example =
    complete_sale-IsHeldCovered 50 4 500 rung_up (with_status completed 4 new_row) new_row 1 7
      the_sale refl till-IsWellFormed till-IsHeldCovered completed_ok

complete_sale-once_example :
    let db' = (complete_sale 50 4 500 rung_up).1 in
    let b = with_status completed 4 new_row in
    (find_sale 50 db' ≡ some b)
    × (b.sale_status ≡ completed)
    × (complete_sale 50 5 600 db' ≡ (ok b, db'))
complete_sale-once_example =
    complete_sale-once 50 4 500 5 600 rung_up (with_status completed 4 new_row) new_row the_sale
      refl completed_ok
