-- ===== src/Inventory/Examples.antt =====
-- A small store: the operations on stock at concrete tables.
use modern_trade_website.Inventory.Batches.Deduct.{deduct_from_batch-fifo, deduct_from_batch-short}
use modern_trade_website.Prelude.{
  inl, some, List, true, All, none, arith, ◌≢◌, ◌∷◌, ◌++◌, refl, inr, ◌≡◌, [], ◌+◌,
}
use modern_trade_website.Inventory.Fifo.Order.{IsByExpiry}
use modern_trade_website.Inventory.Rows.{
  Batch, Reservation, AllNonneg, Shelf, stock, active, reserved,
}
use modern_trade_website.Inventory.Reservations.{
  expire_reservations, ReservationData, not_found_or_closed, cancel_reservation,
  consume_reservation, create_reservation, get_cart_reservations, check_available_stock,
  transfer_reservations_to_order, insert_reservation, check_reservation,
}
use modern_trade_website.Prelude.Table.{update, select, sum_ℤ, Distinct, order_by, insert_by, sum}
use modern_trade_website.Prelude.Int.{◌+ℤ◌, negsuc, ◌≤ℤ◌, pos, ◌-ℤ◌}
use modern_trade_website.Inventory.Reservations.Race.{create_reservation-race}
use modern_trade_website.Inventory.Reservations.Coverage.{
  Reach-IsCovered, here, reserve, next, IsCovered,
}
use modern_trade_website.Inventory.Fifo.Loop.{on_hand}
use modern_trade_website.Inventory.Batches.Merge.{stock-merge_batches, merge_batches_self}
use modern_trade_website.Inventory.Fifo.{batches_for_fifo}
use modern_trade_website.Inventory.Batches.Adjust.{adjust_batch_quantity-written}
use modern_trade_website.Prelude.Outcome.{ok, is_ok, err}
use modern_trade_website.Inventory.Reservations.Lifecycle.{
  close_once, transfer_reservations-safe, create_reservation-oversells,
}
use modern_trade_website.Inventory.Batches.{
  BatchData, deduct_from_batch, below_zero, merge_batches, joined_quantity, adjust_batch_quantity,
  insufficient_inventory,
}
use mathlib.Core.List.{Memᴰ}
use modern_trade_website.Inventory.Fifo.Exact.{left_in}

abbrev rice_old : Batch
rice_old = record {
  id = 1;
  store_id = 1;
  product_id = 7;
  batch_id = 11;
  expiry_date = 20;
  quantity = pos 3;
  created_at = 1;
}

abbrev rice_new : Batch
rice_new = record {
  id = 2;
  store_id = 1;
  product_id = 7;
  batch_id = 12;
  expiry_date = 30;
  quantity = pos 5;
  created_at = 2;
}

abbrev salt : Batch
salt = record {
  id = 3;
  store_id = 1;
  product_id = 8;
  batch_id = 13;
  expiry_date = 25;
  quantity = pos 4;
  created_at = 3;
}

abbrev table : List Batch
table = rice_new ∷ rice_old ∷ salt ∷ []

abbrev held_rice : Reservation
held_rice = record {
  reservation_id = 5;
  cart_id = some 9;
  order_id = none;
  product_id = 7;
  store_id = 1;
  batch_id = none;
  quantity = 2;
  reserved_at = 100;
  expires_at = 200;
  status = active;
}

abbrev shelf : Shelf
shelf = record { batches = table; reservations = held_rice ∷ []; movements = [] }

unique_ids : Distinct (λ b. b.id) table
unique_ids = omega arith

no_negative : AllNonneg table
no_negative = omega arith

rice_stock : pos 6 ≤ℤ stock 1 7 table
unfolding sum_ℤ ◌+ℤ◌
rice_stock = omega arith

rice_short : ¬ (pos 9 ≤ℤ stock 1 7 table)
unfolding sum_ℤ ◌+ℤ◌
rice_short = omega arith

rice_rows : batches_for_fifo 7 1 table ≡ (rice_old ∷ []) ++ rice_new ∷ []
unfolding batches_for_fifo order_by insert_by select
rice_rows = refl

deduct_from_batch-short_example :
    let (r, t') = deduct_from_batch 7 1 9 table in
    (r ≡ err insufficient_inventory) × (stock 1 7 t' ≡ pos 0)
deduct_from_batch-short_example =
    deduct_from_batch-short 7 1 9 table unique_ids no_negative rice_short

deduct_from_batch-fifo_example :
    IsByExpiry ((rice_old ∷ []) ++ rice_new ∷ [])
    × Memᴰ (left_in 6 (on_hand (rice_old ∷ [])) rice_new) (deduct_from_batch 7 1 6 table).1
deduct_from_batch-fifo_example =
    deduct_from_batch-fifo 7 1 6 table (rice_old ∷ []) [] rice_new unique_ids rice_rows

abbrev more_rice : BatchData
more_rice = record { store_id = 1; product_id = 7; batch_id = 12; expiry_date = 30; quantity = 6 }

adjust_batch_quantity-written_example :
    let (r, t') = adjust_batch_quantity 2 (negsuc 8) table in
    (r ≡ err below_zero) × Memᴰ (record rice_new { quantity = negsuc 3 }) t'
unfolding ◌+ℤ◌
adjust_batch_quantity-written_example =
    adjust_batch_quantity-written (negsuc 8) table rice_new (Memᴰ.head refl) unique_ids

stock-merge_batches_example : stock 1 7 (merge_batches 2 (1 ∷ []) table).1 ≡ stock 1 7 table
stock-merge_batches_example =
    stock-merge_batches (1 ∷ []) rice_new 1 7 table (Memᴰ.head refl) unique_ids refl
      (inl refl, (inr (refl, refl), (inl refl, tt)))

merged_alone :
    (merge_batches 2 (2 ∷ []) table).0 ≡ ok (some (record rice_new { quantity = pos 10 }))
unfolding merge_batches joined_quantity select update ◌+ℤ◌
merged_alone = refl

merge_batches_self_example : All (λ x. x.id ≢ 2) (merge_batches 2 (2 ∷ []) table).1
merge_batches_self_example =
    merge_batches_self (2 ∷ []) rice_new table (some (record rice_new { quantity = pos 10 })) refl
      merged_alone

abbrev ask : ReservationData
ask = record {
  cart_id = some 4;
  order_id = none;
  product_id = 7;
  store_id = 1;
  batch_id = none;
  quantity = 6;
  expires_in_minutes = none;
}

covered : IsCovered 1 7 shelf
unfolding sum sum_ℤ ◌+ℤ◌
covered = omega arith

Reach-IsCovered_example : IsCovered 1 7 (create_reservation ask 6 150 shelf).1
Reach-IsCovered_example = Reach-IsCovered 1 7 (next here (reserve ask 6 150 shelf refl)) covered

close_once_example :
    let used = (consume_reservation 5 shelf).1 in
    let dropped = (cancel_reservation 5 shelf).1 in
    (consume_reservation 5 used ≡ (err not_found_or_closed, used))
    × (cancel_reservation 5 used ≡ (err not_found_or_closed, used))
    × (consume_reservation 5 dropped ≡ (err not_found_or_closed, dropped))
    × (cancel_reservation 5 dropped ≡ (err not_found_or_closed, dropped))
close_once_example = close_once 5 shelf

transfer_reservations-safe_example :
    let db' = transfer_reservations_to_order 9 21 shelf in
    (get_cart_reservations 9 db' ≡ [])
    × Memᴰ
        (record held_rice { order_id = some 21; cart_id = none })
        (expire_reservations 900 db').1.reservations
transfer_reservations-safe_example =
    transfer_reservations-safe 9 21 900 shelf held_rice (Memᴰ.head refl) refl

-- Seven are held of the eight, none of them against the newer batch.
abbrev crowded : Shelf
crowded = record shelf { reservations = record held_rice { quantity = 7 } ∷ [] }

abbrev ask_batch : ReservationData
ask_batch = record ask { batch_id = some 12; quantity = 5 }

batch_free : pos 5 ≤ℤ check_available_stock 7 1 (some 12) crowded
unfolding check_available_stock sum sum_ℤ ◌+ℤ◌ ◌-ℤ◌
batch_free = omega arith

product_short : ¬ (pos (reserved 1 7 crowded.reservations + 5) ≤ℤ stock 1 7 crowded.batches)
unfolding sum sum_ℤ ◌+ℤ◌
product_short = omega arith

create_reservation-oversells_example :
    let (r, db') = create_reservation ask_batch 6 150 crowded in
    (is_ok r ≡ true) × (¬ IsCovered 1 7 db')
create_reservation-oversells_example =
    create_reservation-oversells ask_batch 12 6 150 crowded refl batch_free product_short

-- Five and five of eight: each has room alone.
abbrev ask_five : ReservationData
ask_five = record ask { quantity = 5 }

abbrev unreserved : Shelf
unreserved = record shelf { reservations = [] }

room_for_five : pos (reserved 1 7 unreserved.reservations + 5) ≤ℤ stock 1 7 unreserved.batches
unfolding sum sum_ℤ ◌+ℤ◌
room_for_five = omega arith

no_room_for_ten :
    ¬ (pos (reserved 1 7 unreserved.reservations + 10) ≤ℤ stock 1 7 unreserved.batches)
unfolding sum sum_ℤ ◌+ℤ◌
no_room_for_ten = omega arith

create_reservation-race_example :
    (check_reservation ask_five unreserved ≡ ok tt)
    × (check_reservation ask_five unreserved ≡ ok tt)
    × (¬ IsCovered 1 7
        (insert_reservation ask_five 7 151 (insert_reservation ask_five 6 150 unreserved)))
create_reservation-race_example =
    create_reservation-race ask_five ask_five 6 150 7 151 unreserved refl refl refl refl
      room_for_five room_for_five no_room_for_ten
