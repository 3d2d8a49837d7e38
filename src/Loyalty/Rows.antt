-- ===== src/Loyalty/Rows.antt =====
-- The rows of loyalty_ledger (LedgerEntry of backend/src/services/ledgerService.ts), of
-- loyalty_earn_lots (EarnLot of earnLotsService.ts beside it) and of customer_audit_log. Reasons,
-- rules, locations and metadata are left out.
use modern_trade_website.Prelude.{Option, ◌+◌, List, Bool, false, true, ℕ}
use modern_trade_website.Prelude.Int.{ℤ}

pub data EntryType : Type 0 where
  earn redeem expire adjust reversal : EntryType

pub data EntryStatus : Type 0 where
  posted pending : EntryStatus
  other : ℕ → EntryStatus

-- `other` is any text the services do not name.
pub data SourceType : Type 0 where
  sale void return_ expiry_job : SourceType
  other : ℕ → SourceType

abbrev pub source_code : SourceType → ℕ
source_code sale = 0
source_code void = 1
source_code return_ = 2
source_code expiry_job = 3
source_code (other n) = 4 + n

pub record LedgerEntry : Type 0 where
  pub id : ℕ
  pub customer_id : ℕ
  pub points_signed : ℤ
  pub entry_type : EntryType
  pub entry_status : EntryStatus
  pub source_type : SourceType
  pub source_id : Option ℕ
  pub idempotency_key : Option ℕ
  pub reversal_of_id : Option ℕ

pub record EarnLot : Type 0 where
  pub id : ℕ
  pub customer_id : ℕ
  pub ledger_entry_id : ℕ
  pub original_points : ℕ
  pub remaining_points : ℕ
  pub available_date : ℕ
  pub expiry_date : ℕ
  pub is_expired : Bool
  pub expired_at : Option ℕ

-- An entry of the audit log for a new ledger entry.
pub record Audit : Type 0 where
  pub customer_id : ℕ
  pub entity_id : ℕ

pub record Db : Type 0 where
  pub ledger : List LedgerEntry
  pub audit : List Audit
  pub lots : List EarnLot

abbrev pub is_posted : EntryStatus → Bool
is_posted posted = true
is_posted _ = false

abbrev pub is_pending : EntryStatus → Bool
is_pending pending = true
is_pending _ = false

abbrev pub is_expire : EntryType → Bool
is_expire expire = true
is_expire _ = false

abbrev pub is_earn : EntryType → Bool
is_earn earn = true
is_earn _ = false

abbrev pub is_redeem : EntryType → Bool
is_redeem redeem = true
is_redeem _ = false

abbrev pub is_reversal : EntryType → Bool
is_reversal reversal = true
is_reversal _ = false
