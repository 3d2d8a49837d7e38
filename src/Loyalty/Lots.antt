-- ===== src/Loyalty/Lots.antt =====
-- EarnLotsService of backend/src/services/earnLotsService.ts. Its statements run outside a transaction.
pub mod Expiry
pub mod Deduct
use modern_trade_website.Prelude.{
  ◌++◌, head?, ◌&&◌, min, ◌-◌, some, ltb, ℕ, ◌+◌, none, leb, false, true, Option, ◌==◌, Bool, ◌∷◌,
  length, List, not, [], if◌then◌else◌,
}
use modern_trade_website.Loyalty.Rows.{expiry_job, posted, LedgerEntry, EarnLot, Db, expire}
use modern_trade_website.Prelude.Outcome.{ok, err, M}
use modern_trade_website.Prelude.Table.{order_by, update, sum, select}
use modern_trade_website.Prelude.Int.{◌-ℤ◌, pos}

pub data LotError : Type 0 where
  not_positive insufficient_points : LotError

-- createEarnLot
unfoldable pub create_earn_lot : ℕ → ℕ → ℕ → ℕ → ℕ → ℕ → Db → Db
create_earn_lot id customer entry points available_date expiry_date db = record db {
  lots =
      db.lots
      ++ record {
        id = id;
        customer_id = customer;
        ledger_entry_id = entry;
        original_points = points;
        remaining_points = points;
        available_date = available_date;
        expiry_date = expiry_date;
        is_expired = false;
        expired_at = none;
      }
        ∷ [];
}

-- is_expired = false AND expiry_date > CURRENT_TIMESTAMP
abbrev pub is_open : ℕ → ℕ → EarnLot → Bool
is_open now customer l = l.customer_id == customer && (not l.is_expired && ltb now l.expiry_date)

-- getCustomerEarnLots
unfoldable pub get_customer_earn_lots : ℕ → ℕ → Bool → Db → List EarnLot
get_customer_earn_lots now customer include_expired db =
    order_by (λ l k. leb l.expiry_date k.expiry_date)
      (select (λ l. if include_expired then l.customer_id == customer else is_open now customer l)
        db.lots)

-- getByLedgerEntryId
abbrev pub get_by_ledger_entry_id : ℕ → Db → Option EarnLot
get_by_ledger_entry_id entry db = head? (select (λ l. l.ledger_entry_id == entry) db.lots)

-- UPDATE loyalty_earn_lots SET remaining_points = $1 WHERE id = $2
abbrev pub set_remaining : ℕ → ℕ → List EarnLot → List EarnLot
set_remaining points i = update (λ l. l.id == i) (λ l. record l { remaining_points = points })

-- The loop of deductPoints: the table after it, and what is still to be deducted.
unfoldable pub deduct_lots : List EarnLot → ℕ → List EarnLot → List EarnLot × ℕ
deduct_lots [] remaining t = (t, remaining)
deduct_lots (l ∷ ls) remaining t =
    let d = min remaining l.remaining_points in
    let rest = deduct_lots ls (remaining - d) (set_remaining (l.remaining_points - d) l.id t) in
    if leb remaining 0 then (t, remaining) else rest

-- deductPoints, but for the rows that it answers with.
unfoldable pub deduct_points : ℕ → ℕ → ℕ → M Db LotError (Unit {0})
deduct_points now customer points db =
    let (lots, remaining) =
      deduct_lots (get_customer_earn_lots now customer false db) points db.lots in
    let after = record db { lots = lots } in
    if leb points 0
    then (err not_positive, db)
    else if ltb 0 remaining
    then (err insufficient_points, after)
    else (ok tt, after)

abbrev pub restored : ℕ → ℕ → ℕ → ℕ → ℕ → Db → Option EarnLot → Db
restored id now customer points entry db none =
    create_earn_lot id customer entry points now (now + 31536000000) db
restored id now customer points entry db (some l) = record db {
  lots =
      update (λ k. k.id == l.id)
        (λ k. record k { remaining_points = l.remaining_points + points; is_expired = false })
        db.lots;
}

-- restorePoints; `id` is the id of a new lot.
unfoldable pub restore_points : ℕ → ℕ → ℕ → ℕ → ℕ → M Db LotError (Unit {0})
restore_points id now customer points entry db =
    if leb points 0
    then (err not_positive, db)
    else (ok tt, restored id now customer points entry db (get_by_ledger_entry_id entry db))

-- Lots to expire: is_expired = false AND expiry_date < CURRENT_TIMESTAMP AND remaining_points > 0
abbrev pub is_due : ℕ → EarnLot → Bool
is_due now l = not l.is_expired && (ltb l.expiry_date now && ltb 0 l.remaining_points)

abbrev pub expiry_entry : EarnLot → ℕ → LedgerEntry
expiry_entry l id = record {
  id = id;
  customer_id = l.customer_id;
  points_signed = pos 0 -ℤ pos l.remaining_points;
  entry_type = expire;
  entry_status = posted;
  source_type = expiry_job;
  source_id = none;
  idempotency_key = none;
  reversal_of_id = none;
}

abbrev pub expire_lot : ℕ → ℕ → EarnLot → Db → Db
expire_lot now id l db = record db {
  lots =
      update (λ k. k.id == l.id) (λ k. record k { is_expired = true; expired_at = some now })
        db.lots;
  ledger = db.ledger ++ expiry_entry l id ∷ [];
}

-- The loop of processExpiry; the ids of the new entries count up from `id`.
unfoldable pub expire_lots : ℕ → ℕ → List EarnLot → Db → Db
expire_lots now id [] db = db
expire_lots now id (l ∷ ls) db = expire_lots now (id + 1) ls (expire_lot now id l db)

-- processExpiry
unfoldable pub process_expiry : ℕ → ℕ → Db → ℕ × Db
process_expiry now id db =
    let due = select (is_due now) db.lots in (length due, expire_lots now id due db)

-- calculateAvailableBalance
unfoldable pub calculate_available_balance : ℕ → ℕ → Db → ℕ
calculate_available_balance now customer db =
    sum (λ l. is_open now customer l && leb l.available_date now) (λ l. l.remaining_points) db.lots
