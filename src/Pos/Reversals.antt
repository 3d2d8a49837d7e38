-- ===== src/Pos/Reversals.antt =====
-- voidSale and processReturn of backend/src/services/posService.ts. Neither is a transaction.
pub mod Void
use modern_trade_website.Pos.Points.{
  void_earn, void_redeem, return_earn, return_redeem, call, require, ReturnItem, Tables,
  PointsError, already_returned, not_completed, already_voided, in_ledger, no_customer, in_lots,
  points_missing, set_sale, Return, Key, get_sale, key_code,
}
use modern_trade_website.Loyalty.Rows.{
  LedgerEntry, is_earn, is_redeem, EntryType, SourceType, return_, void,
}
use modern_trade_website.Prelude.Int.{ℤ, pos, ◌-ℤ◌}
use modern_trade_website.Prelude.{
  Bool, ℕ, not, Option, List, head?, leb, none, some, ◌++◌, ◌==◌, ◌∷◌, [], if◌then◌else◌,
}
use modern_trade_website.Pos.Rows.{voided, Sale, same_sale_status, completed, returned}
use modern_trade_website.Prelude.Outcome.{◌>>=◌, ok, guard, throw, M, modify, return, ◌>>◌}
use modern_trade_website.Prelude.Table.{update, select}
use modern_trade_website.Loyalty.Ledger.{
  find_by_idempotency_key, create_entry, get_by_source, CreateLedgerEntryInput,
}
use modern_trade_website.Loyalty.Lots.{restore_points}
use modern_trade_website.Orders.Web.{found}

-- entries.find((e) => e.entry_type === …) over getBySource("SALE", id)
abbrev pub entry_of_sale : (EntryType → Bool) → ℕ → Tables → Option LedgerEntry
entry_of_sale p id s =
    head? (select (λ e. p e.entry_type) (get_by_source SourceType.sale id s.ledgers))

-- What a reversal is for: the sale, and the void or the return that posts it.
pub record Reason : Type 0 where
  pub sale_id : ℕ
  pub customer_id : Option ℕ
  pub source_type : SourceType
  pub source_id : ℕ

abbrev pub reversal : Reason → ℕ → ℤ → Key → LedgerEntry → CreateLedgerEntryInput
reversal reason customer points key e = record {
  customer_id = customer;
  points_signed = points;
  entry_type = EntryType.reversal;
  source_type = reason.source_type;
  source_id = some reason.source_id;
  idempotency_key = some (key_code key);
  reversal_of_id = some e.id;
}

abbrev pub post_reversal : Reason → ℕ → ℤ → Key → ℕ → LedgerEntry → M Tables PointsError (Unit {0})
post_reversal reason customer points key id e =
    call in_ledger (create_entry (reversal reason customer points key e) id) >>= λ posted. return tt

abbrev pub reverse_entry :
    Reason → ℕ → Key → ℕ → ℕ → ℕ → Option LedgerEntry → M Tables PointsError (Unit {0})
reverse_entry reason points key id lot now none = return tt
reverse_entry reason points key id lot now (some e) =
    require reason.customer_id no_customer >>= λ customer.
    call in_lots (restore_points lot now customer points e.id)
    >> post_reversal reason customer (pos 0 -ℤ pos points) key id e

-- "Reverse earn points if any". A sale that earned points has a customer.
unfoldable pub reverse_earned : Reason → ℕ → Key → ℕ → ℕ → ℕ → M Tables PointsError (Unit {0})
reverse_earned reason points key id lot now s =
    let done =
      reverse_entry reason points key id lot now (entry_of_sale is_earn reason.sale_id s) s in
    if leb points 0 then (ok tt, s) else done

-- createEntry with `points_signed` undefined: an entry under the key answers, and without one the
-- column, which is NOT NULL, refuses the row.
abbrev undefined_points : Option LedgerEntry → Option LedgerEntry → M Tables PointsError (Unit {0})
undefined_points none found = return tt
undefined_points (some e) (some found) = return tt
undefined_points (some e) none = throw points_missing

-- "Reverse redemption if any" of voidSale, which reads `sale.points_redeem`: no sale has it.
unfoldable pub void_redeemed : Sale → M Tables PointsError (Unit {0})
void_redeemed sale s =
    let key = some (key_code (void_redeem sale.id)) in
    if leb sale.points_redeemed 0
    then (ok tt, s)
    else undefined_points (entry_of_sale is_redeem sale.id s)
        (find_by_idempotency_key key s.ledgers) s

pub record VoidResult : Type 0 where
  pub points_reversed : ℕ
  pub points_restored : ℕ

abbrev pub void_reason : Sale → Reason
void_reason sale = record {
  sale_id = sale.id;
  customer_id = sale.customer_id;
  source_type = SourceType.void;
  source_id = sale.id;
}

-- voidSale; `id` and `lot` are the ids of new rows.
unfoldable pub void_sale : ℕ → ℕ → ℕ → ℕ → M Tables PointsError VoidResult
void_sale sale_id id lot now = get_sale sale_id >>= λ sale.
    guard (not (same_sale_status sale.sale_status voided)) already_voided
    >> guard (not (same_sale_status sale.sale_status returned)) already_returned
    >> reverse_earned (void_reason sale) sale.points_earned (void_earn sale.id) id lot now
    >> void_redeemed sale
    >> set_sale (λ k. record k { sale_status = voided }) sale_id
    >> return
        (record { points_reversed = sale.points_earned; points_restored = sale.points_redeemed })

pub record ReturnLine : Type 0 where
  pub sale_item_id : ℕ
  pub quantity : ℕ
  pub return_amount : ℕ

pub record ReturnInput : Type 0 where
  pub return_number : ℕ
  pub sale_id : ℕ
  pub customer_id : ℕ
  pub store_id : ℕ
  pub total_amount : ℕ
  pub items : List ReturnLine

abbrev new_return : ReturnInput → ℕ → Return
new_return input id = record {
  id = id;
  return_number = input.return_number;
  sale_id = input.sale_id;
  customer_id = input.customer_id;
  store_id = input.store_id;
  total_amount = input.total_amount;
  points_reversed = 0;
  redemption_reversed = 0;
}

abbrev return_reason : ReturnInput → ℕ → ℕ → Reason
return_reason input sale id = record {
  sale_id = sale;
  customer_id = some input.customer_id;
  source_type = SourceType.return_;
  source_id = id;
}

abbrev restore_entry :
    ReturnInput → Reason → ℕ → Key → ℕ → Option LedgerEntry → M Tables PointsError (Unit {0})
restore_entry input reason points key id none = return tt
restore_entry input reason points key id (some e) =
    post_reversal reason input.customer_id (pos points) key id e

-- "Restore redemption proportionally"
unfoldable pub restore_redeemed :
    ReturnInput → Reason → ℕ → Key → ℕ → M Tables PointsError (Unit {0})
restore_redeemed input reason points key id s =
    let done =
      restore_entry input reason points key id (entry_of_sale is_redeem reason.sale_id s) s in
    if leb points 0 then (ok tt, s) else done

abbrev item_rows : ℕ → List ReturnLine → List ReturnItem
item_rows id [] = []
item_rows id (l ∷ ls) =
    record {
      return_id = id;
      sale_item_id = l.sale_item_id;
      quantity = l.quantity;
      return_amount = l.return_amount;
    }
    ∷ item_rows id ls

abbrev returned_row : ReturnInput → Sale → Sale → Sale
returned_row input sale k = record k {
  sale_status = if leb sale.total_amount input.total_amount then returned else k.sale_status;
}

pub record ReturnResult : Type 0 where
  pub return_id : ℕ
  pub points_reversed : ℕ
  pub redemption_restored : ℕ

-- processReturn; `share points amount total` is Math.floor(points * (amount / total)) in floating point.
-- The ids of the new return, its two entries and a new lot are `id`, `earned`, `redeemed` and `lot`.
unfoldable pub process_return :
    (ℕ → ℕ → ℕ → ℕ) → ReturnInput → ℕ → ℕ → ℕ → ℕ → ℕ → M Tables PointsError ReturnResult
process_return share input id earned redeemed lot now = get_sale input.sale_id >>= λ sale.
    let reverse = share sale.points_earned input.total_amount sale.total_amount in
    let restore = share sale.points_redeemed input.total_amount sale.total_amount in
    let reason = return_reason input sale.id id in
    guard (same_sale_status sale.sale_status completed) not_completed
    >> modify (λ s. record s { returns = s.returns ++ new_return input id ∷ [] })
    >> reverse_earned reason reverse (return_earn id) earned lot now
    >> restore_redeemed input reason restore (return_redeem id) redeemed
    >> modify (λ s. record s { return_items = s.return_items ++ item_rows id input.items })
    >> set_sale (returned_row input sale) input.sale_id
    >> modify (λ s. record s {
      returns =
          update (λ r. r.id == id)
            (λ r. record r { points_reversed = reverse; redemption_reversed = restore }) s.returns;
    })
    >> return (record { return_id = id; points_reversed = reverse; redemption_restored = restore })
