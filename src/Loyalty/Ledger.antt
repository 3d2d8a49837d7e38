-- ===== src/Loyalty/Ledger.antt =====
-- LedgerService of backend/src/services/ledgerService.ts.
pub mod Balance
use modern_trade_website.Loyalty.Rows.{
  is_earn, is_expire, EntryType, posted, is_reversal, source_code, SourceType, is_pending,
  is_posted, LedgerEntry, is_redeem, Db,
}
use modern_trade_website.Prelude.{
  ◌++◌, head?, ◌&&◌, some, is_some, ℕ, ◌+◌, none, ◌=?◌, Option, ◌==◌, Bool, ◌∷◌, List, not, [],
  if◌then◌else◌,
}
use modern_trade_website.Prelude.Outcome.{ok, Result, err, M}
use modern_trade_website.Prelude.Int.{ℤ, pos_part, pos, ltb_ℤ, neg_part}
use modern_trade_website.Prelude.Table.{sum_ℤ, select}

pub data LedgerError : Type 0 where
  reversal_needs_entry zero_points earn_must_be_positive redeem_must_be_negative : LedgerError

pub record CreateLedgerEntryInput : Type 0 where
  pub customer_id : ℕ
  pub points_signed : ℤ
  pub entry_type : EntryType
  pub source_type : SourceType
  pub source_id : Option ℕ
  pub idempotency_key : Option ℕ
  pub reversal_of_id : Option ℕ

abbrev is_zero : ℤ → Bool
is_zero a = pos_part a == neg_part a

-- findByIdempotencyKey; no key finds nothing.
abbrev pub find_by_idempotency_key : Option ℕ → Db → Option LedgerEntry
find_by_idempotency_key none db = none
find_by_idempotency_key (some key) db = head? (select (λ e. e.idempotency_key =? key) db.ledger)

-- The checks on a new entry, in the order of the code.
unfoldable pub check_entry : CreateLedgerEntryInput → Result LedgerError (Unit {0})
check_entry input =
    if is_reversal input.entry_type && not (is_some input.reversal_of_id)
    then err reversal_needs_entry
    else if is_zero input.points_signed
    then err zero_points
    else if is_earn input.entry_type && ltb_ℤ input.points_signed (pos 0)
    then err earn_must_be_positive
    else if is_redeem input.entry_type && ltb_ℤ (pos 0) input.points_signed
    then err redeem_must_be_negative
    else ok tt

abbrev pub entry_of : CreateLedgerEntryInput → ℕ → LedgerEntry
entry_of input id = record {
  id = id;
  customer_id = input.customer_id;
  points_signed = input.points_signed;
  entry_type = input.entry_type;
  entry_status = posted;
  source_type = input.source_type;
  source_id = input.source_id;
  idempotency_key = input.idempotency_key;
  reversal_of_id = input.reversal_of_id;
}

abbrev pub appended :
    CreateLedgerEntryInput
    → ℕ
    → Db
    → Result LedgerError (Unit {0})
    → Result LedgerError LedgerEntry × Db
appended input id db (err e) = (err e, db)
appended input id db (ok u) = (
  ok (entry_of input id),
  record db {
    ledger = db.ledger ++ entry_of input id ∷ [];
    audit = db.audit ++ record { customer_id = input.customer_id; entity_id = id } ∷ [];
  },
)

abbrev entry_once :
    CreateLedgerEntryInput → ℕ → Db → Option LedgerEntry → Result LedgerError LedgerEntry × Db
entry_once input id db (some e) = (ok e, db)
entry_once input id db none = appended input id db (check_entry input)

-- createEntry; `id` is the id of a new row.
unfoldable pub create_entry : CreateLedgerEntryInput → ℕ → M Db LedgerError LedgerEntry
create_entry input id db = entry_once input id db (find_by_idempotency_key input.idempotency_key db)

-- The three sums of calculateBalance.
abbrev pub counts_as_available : ℕ → LedgerEntry → Bool
counts_as_available customer e =
    e.customer_id == customer && (is_posted e.entry_status && not (is_expire e.entry_type))

unfoldable pub available : ℕ → Db → ℤ
available customer db = sum_ℤ (counts_as_available customer) (λ e. e.points_signed) db.ledger

unfoldable pub pending_points : ℕ → Db → ℤ
pending_points customer db =
    sum_ℤ (λ e. e.customer_id == customer && is_pending e.entry_status) (λ e. e.points_signed)
      db.ledger

unfoldable pub lifetime_earned : ℕ → Db → ℤ
lifetime_earned customer db =
    sum_ℤ (λ e. e.customer_id == customer && (is_earn e.entry_type && is_posted e.entry_status))
      (λ e. e.points_signed) db.ledger

-- getBySource
unfoldable pub get_by_source : SourceType → ℕ → Db → List LedgerEntry
get_by_source source id db =
    select (λ e. source_code e.source_type == source_code source && e.source_id =? id) db.ledger

-- The sum of validateLedgerIntegrity, and its test.
abbrev pub posted_of : ℕ → LedgerEntry → Bool
posted_of customer e = e.customer_id == customer && is_posted e.entry_status

unfoldable pub sum_points : ℕ → Db → ℤ
sum_points customer db = sum_ℤ (posted_of customer) (λ e. e.points_signed) db.ledger

abbrev pub eq_ℤ : ℤ → ℤ → Bool
eq_ℤ a b = pos_part a + neg_part b == pos_part b + neg_part a

unfoldable pub is_valid : ℕ → Db → Bool
is_valid customer db = eq_ℤ (sum_points customer db) (available customer db)
