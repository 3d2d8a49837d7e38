-- ===== src/Pos/Accounts.antt =====
-- One customer's sale and points, at concrete tables.
use modern_trade_website.Pos.Rows.{Sale, npr, cash, completed}
use modern_trade_website.Loyalty.Rows.{EarnLot, earn, redeem, SourceType, LedgerEntry, posted}
use modern_trade_website.Loyalty.Lots.Deduct.{total_points, held_points}
use modern_trade_website.Prelude.{
  ◌<◌, ◌*◌, none, true, length, ◌+◌, ℕ, ◌≤◌, false, arith, ◌≡◌, refl, some, ◌∷◌, List, [],
}
use modern_trade_website.Pos.Reversals.Void.{HasBoth, attempts, void_sale-stuck}
use modern_trade_website.Pos.Reversals.{void_sale}
use modern_trade_website.Pos.Points.Redeem.{
  IsRedeemable, post_redemption-exact, post_redemption-short,
}
use modern_trade_website.Pos.Points.{
  post_redemption, sale_earn, sale_redeem, key_code, in_lots, already_posted, Tables,
  points_missing,
}
use modern_trade_website.Prelude.Table.{select, sum_ℤ, sum}
use modern_trade_website.Prelude.Int.{negsuc, ◌-ℤ◌, ◌+ℤ◌, pos}
use modern_trade_website.Loyalty.Ledger.{available, get_by_source}
use modern_trade_website.Prelude.Outcome.{is_ok, err}
use modern_trade_website.Loyalty.Lots.{insufficient_points}

abbrev paid_sale : Sale
paid_sale = record {
  id = 50;
  sale_number = 77;
  customer_id = some 3;
  store_id = 1;
  total_amount = 25100;
  points_earned = 10;
  points_redeemed = 0;
  currency = npr;
  payment_method = cash;
  sale_status = completed;
  idempotency_key = some 9;
  created_by = 1;
  updated_by = none;
}

abbrev earned_entry : LedgerEntry
earned_entry = record {
  id = 1;
  customer_id = 3;
  points_signed = pos 10;
  entry_type = earn;
  entry_status = posted;
  source_type = SourceType.sale;
  source_id = some 50;
  idempotency_key = some (key_code (sale_earn 50));
  reversal_of_id = none;
}

abbrev redeemed_entry : LedgerEntry
redeemed_entry = record earned_entry {
  id = 4;
  points_signed = negsuc 3;
  entry_type = redeem;
  idempotency_key = some (key_code (sale_redeem 50));
}

abbrev earned_lot : EarnLot
earned_lot = record {
  id = 2;
  customer_id = 3;
  ledger_entry_id = 1;
  original_points = 10;
  remaining_points = 10;
  available_date = 100;
  expiry_date = 200;
  is_expired = false;
  expired_at = none;
}

abbrev tables : Tables
tables = record {
  till = record {
    sales = paid_sale ∷ [];
    items = [];
    products = [];
    prices = [];
    shelf = record { batches = []; reservations = []; movements = [] };
  };
  ledgers = record { ledger = earned_entry ∷ []; audit = []; lots = earned_lot ∷ [] };
  returns = [];
  return_items = [];
}

redeemable : IsRedeemable tables paid_sale 3 4
unfolding select available sum_ℤ ◌+ℤ◌
redeemable = record {
  stored = refl;
  is_completed = refl;
  owner = refl;
  unposted = refl;
  positive = omega arith;
  on_ledger = omega arith;
  no_entry = refl;
  lot_ids = omega arith;
}

lots_hold : 4 ≤ held_points 150 3 tables.ledgers.lots
unfolding sum
lots_hold = omega arith

-- The lot has expired by then.
lots_lack : held_points 300 3 tables.ledgers.lots < 4
unfolding sum
lots_lack = omega arith

post_redemption-exact_example :
    let (r, after) = post_redemption 50 4 9 150 tables in
    (is_ok r ≡ true)
    × (available 3 after.ledgers ≡ available 3 tables.ledgers -ℤ pos 4)
    × (held_points 150 3 after.ledgers.lots + 4 ≡ held_points 150 3 tables.ledgers.lots)
    × ((more id' now' : ℕ) → post_redemption 50 more id' now' after ≡ (err already_posted, after))
post_redemption-exact_example =
    post_redemption-exact tables paid_sale 3 4 9 150 redeemable lots_hold

post_redemption-short_example :
    let (r, after) = post_redemption 50 4 9 300 tables in
    (r ≡ err (in_lots insufficient_points))
    × (available 3 after.ledgers ≡ available 3 tables.ledgers)
    × (held_points 300 3 after.ledgers.lots ≡ 0)
    × (after.till ≡ tables.till)
post_redemption-short_example =
    post_redemption-short tables paid_sale 3 4 9 300 redeemable lots_lack

abbrev sale_of_both : Sale
sale_of_both = record paid_sale { points_redeemed = 4 }

abbrev tables_of_both : Tables
tables_of_both = record tables {
  till = record tables.till { sales = sale_of_both ∷ [] };
  ledgers = record tables.ledgers {
    ledger = earned_entry ∷ redeemed_entry ∷ [];
    lots = record earned_lot { remaining_points = 6 } ∷ [];
  };
}

has_both : HasBoth tables_of_both sale_of_both 3 earned_entry redeemed_entry
unfolding select get_by_source
has_both = record {
  stored = refl;
  not_voided = refl;
  not_returned = refl;
  owner = refl;
  earned = omega arith;
  redeemed = omega arith;
  earn_entry = refl;
  redeem_entry = refl;
  no_entry = refl;
  lot = (record earned_lot { remaining_points = 6 }, refl);
  lot_ids = omega arith;
}

abbrev two_calls : List (ℕ × ℕ × ℕ)
two_calls = (20, 21, 150) ∷ (22, 23, 160) ∷ []

void_sale-stuck_example :
    let after = attempts 50 two_calls tables_of_both in
    ((void_sale 50 24 25 170 after).0 ≡ err points_missing)
    × (after.till ≡ tables_of_both.till)
    × (total_points after.ledgers.lots
        ≡ total_points tables_of_both.ledgers.lots + length two_calls * 10)
void_sale-stuck_example =
    void_sale-stuck sale_of_both 3 earned_entry redeemed_entry tables_of_both two_calls 24 25 170
      has_both
