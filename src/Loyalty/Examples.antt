-- ===== src/Loyalty/Examples.antt =====
-- One customer's points, at concrete tables.
use modern_trade_website.Prelude.{
  arith, false, ◌<◌, ◌≡◌, some, refl, true, ◌∷◌, none, [], ◌&&◌, ltb,
}
use modern_trade_website.Prelude.Table.{select, sum, sum_ℤ}
use modern_trade_website.Loyalty.Ledger.{
  find_by_idempotency_key, check_entry, available, is_valid, entry_of, CreateLedgerEntryInput,
  create_entry, sum_points,
}
use modern_trade_website.Prelude.Int.{pos, ◌+ℤ◌, negsuc, ◌-ℤ◌}
use modern_trade_website.Loyalty.Rows.{posted, LedgerEntry, redeem, earn, sale, EarnLot, Db}
use modern_trade_website.Loyalty.Ledger.Balance.{create_entry-once}
use modern_trade_website.Loyalty.Lots.{process_expiry, is_due}
use modern_trade_website.Prelude.Outcome.{ok}
use modern_trade_website.Loyalty.Lots.Expiry.{due_points, process_expiry-available}

abbrev earned : LedgerEntry
earned = record {
  id = 1;
  customer_id = 3;
  points_signed = pos 10;
  entry_type = earn;
  entry_status = posted;
  source_type = sale;
  source_id = some 50;
  idempotency_key = some 60;
  reversal_of_id = none;
}

abbrev lot : EarnLot
lot = record {
  id = 2;
  customer_id = 3;
  ledger_entry_id = 1;
  original_points = 10;
  remaining_points = 10;
  available_date = 100;
  expiry_date = 200;
  is_expired = false;
  expired_at = none;
}

abbrev points_db : Db
points_db = record { ledger = earned ∷ []; audit = []; lots = lot ∷ [] }

abbrev redeem_four : CreateLedgerEntryInput
redeem_four = record {
  customer_id = 3;
  points_signed = negsuc 3;
  entry_type = redeem;
  source_type = sale;
  source_id = some 51;
  idempotency_key = some 61;
  reversal_of_id = none;
}

new_key : find_by_idempotency_key (some 61) points_db ≡ none
unfolding select
new_key = refl

redeemed_ok : (create_entry redeem_four 7 points_db).0 ≡ ok (entry_of redeem_four 7)
unfolding create_entry check_entry select
redeemed_ok = refl

create_entry-once_example :
    let db' = (create_entry redeem_four 7 points_db).1 in
    create_entry (record redeem_four { points_signed = negsuc 8 }) 8 db'
    ≡ (ok (entry_of redeem_four 7), db')
create_entry-once_example =
    create_entry-once redeem_four (record redeem_four { points_signed = negsuc 8 }) 61 7 8 points_db
      (entry_of redeem_four 7) refl refl redeemed_ok

ledger_valid : is_valid 3 points_db ≡ true
unfolding is_valid sum_points available sum_ℤ ◌+ℤ◌
ledger_valid = refl

points_due : 0 < due_points 3 (select (is_due 300) points_db.lots)
unfolding due_points select sum
points_due = omega arith

process_expiry-available_example :
    let db' = (process_expiry 300 9 points_db).1 in
    (available 3 db' ≡ available 3 points_db)
    × (sum_points 3 db'
        ≡ sum_points 3 points_db -ℤ pos (due_points 3 (select (is_due 300) points_db.lots)))
    × ((is_valid 3 db'
          && (is_valid 3 points_db && ltb 0 (due_points 3 (select (is_due 300) points_db.lots))))
        ≡ false)
process_expiry-available_example = process_expiry-available 300 9 3 points_db
