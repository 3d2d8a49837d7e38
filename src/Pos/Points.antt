-- ===== src/Pos/Points.antt =====
-- The points of a sale: postEarnPoints, authorizeRedemption, postRedemption, voidSale and processReturn
-- of backend/src/services/posService.ts, over the sales, the ledger and the earn lots. None of them is a
-- transaction. Reasons, actors and metadata are left out.
pub mod Redeem
use modern_trade_website.Pos.Rows.{Db as Till, same_sale_status, Sale, completed}
use modern_trade_website.Loyalty.Rows.{Db as Ledgers, EntryType, earn, redeem, SourceType}
use modern_trade_website.Prelude.Outcome.{M, guard, modify, ◌>>◌, err, ok, Result, ◌>>=◌, return}
use modern_trade_website.Prelude.{
  not, ◌*◌, ◌==◌, Option, ltb, suc, ℕ, ◌+◌, none, some, leb, List, if◌then◌else◌,
}
use modern_trade_website.Loyalty.Lots.{create_earn_lot, LotError, deduct_points}
use modern_trade_website.Pos.Sales.{find_sale}
use modern_trade_website.Inventory.Issue.{Item, items_of}
use modern_trade_website.Prelude.Int.{pos, ◌-ℤ◌, ltb_ℤ, negsuc, ℤ}
use modern_trade_website.Prelude.Table.{update}
use modern_trade_website.Loyalty.Ledger.{
  create_entry, LedgerError, CreateLedgerEntryInput, available,
}

pub record Return : Type 0 where
  pub id : ℕ
  pub return_number : ℕ
  pub sale_id : ℕ
  pub customer_id : ℕ
  pub store_id : ℕ
  pub total_amount : ℕ
  pub points_reversed : ℕ
  pub redemption_reversed : ℕ

pub record ReturnItem : Type 0 where
  pub return_id : ℕ
  pub sale_item_id : ℕ
  pub quantity : ℕ
  pub return_amount : ℕ

pub record Tables : Type 0 where
  pub till : Till
  pub ledgers : Ledgers
  pub returns : List Return
  pub return_items : List ReturnItem

pub data PointsError : Type 0 where
  fetch_failed not_completed no_customer already_posted insufficient authorize_failed
        points_missing :
      PointsError
  already_voided already_returned : PointsError
  in_lots : LotError → PointsError
  in_ledger : LedgerError → PointsError

-- The idempotency keys `sale_${id}_earn`, `sale_${id}_redeem`, `sale_${id}_void_earn`,
-- `sale_${id}_void_redeem`, `return_${id}_earn` and `return_${id}_redeem`, numbered.
pub data Key : Type 0 where
  sale_earn sale_redeem void_earn void_redeem return_earn return_redeem : ℕ → Key

abbrev pub key_code : Key → ℕ
key_code (sale_earn i) = 6 * i
key_code (sale_redeem i) = 6 * i + 1
key_code (void_earn i) = 6 * i + 2
key_code (void_redeem i) = 6 * i + 3
key_code (return_earn i) = 6 * i + 4
key_code (return_redeem i) = 6 * i + 5

abbrev relay :
    {E A : Type 0}
    → (E → PointsError)
    → Tables
    → Result E A × Ledgers
    → Result PointsError A × Tables
relay wrap s (ok a, l) = (ok a, record s { ledgers = l })
relay wrap s (err e, l) = (err (wrap e), record s { ledgers = l })

-- A call of the ledger's service, or of the lots'.
abbrev pub call : {E A : Type 0} → (E → PointsError) → M Ledgers E A → M Tables PointsError A
call wrap m s = relay wrap s (m s.ledgers)

abbrev pub require : {A : Type 0} → Option A → PointsError → M Tables PointsError A
require none e s = (err e, s)
require (some a) e s = (ok a, s)

-- getSale; its items are read by postEarnPoints alone.
abbrev pub get_sale : ℕ → M Tables PointsError Sale
get_sale id s = require (find_sale id s.till) fetch_failed s

-- UPDATE sales SET … WHERE id = $
abbrev pub set_sale : (Sale → Sale) → ℕ → M Tables PointsError (Unit {0})
set_sale f id =
    modify
      (λ s. record s { till = record s.till { sales = update (λ k. k.id == id) f s.till.sales } })

abbrev sale_entry : Sale → ℕ → ℤ → EntryType → Key → CreateLedgerEntryInput
sale_entry sale customer points type key = record {
  customer_id = customer;
  points_signed = points;
  entry_type = type;
  source_type = SourceType.sale;
  source_id = some sale.id;
  idempotency_key = some (key_code key);
  reversal_of_id = none;
}

pub record EarnResult : Type 0 where
  pub points_earned : ℕ
  pub ledger_entry_id : Option ℕ

abbrev post_earned : Sale → ℕ → ℕ → ℕ → ℕ → ℕ → ℕ → M Tables PointsError EarnResult
post_earned sale customer points id lot now expiry =
    call in_ledger
      (create_entry (sale_entry sale customer (pos points) earn (sale_earn sale.id)) id)
    >>= λ entry.
        modify (λ s. record s {
          ledgers = create_earn_lot lot customer entry.id points now expiry s.ledgers;
        })
        >> set_sale (λ k. record k { points_earned = points }) sale.id
        >> return (record { points_earned = points; ledger_entry_id = some entry.id })

-- `if (calculation.points <= 0)`
abbrev earn_points : Sale → ℕ → ℕ → ℕ → ℕ → ℕ → ℤ → M Tables PointsError EarnResult
earn_points sale customer id lot now expiry (negsuc n) s =
    (ok (record { points_earned = 0; ledger_entry_id = none }), s)
earn_points sale customer id lot now expiry (pos n) s =
    if leb n 0
    then (ok (record { points_earned = 0; ledger_entry_id = none }), s)
    else post_earned sale customer n id lot now expiry s

-- postEarnPoints; `calculate` is calculatePoints of ruleEngineService.ts on the sale and its items,
-- `expiry` the date one year from `now`, `id` and `lot` the ids of new rows.
unfoldable pub post_earn_points :
    (Sale → List Item → ℤ) → ℕ → ℕ → ℕ → ℕ → ℕ → M Tables PointsError EarnResult
post_earn_points calculate sale_id id lot now expiry = get_sale sale_id >>= λ sale.
    guard (same_sale_status sale.sale_status completed) not_completed
    >> require sale.customer_id no_customer
    >>= λ customer. guard (not (ltb 0 sale.points_earned)) already_posted >> λ s.
        earn_points sale customer id lot now expiry (calculate sale (items_of sale.id s.till.items))
          s

pub data Authorization : Type 0 where
  -- the points available, and what is left after
  authorized : ℤ → ℤ → Authorization
  -- the points available, and the shortfall
  refused : ℤ → ℤ → Authorization

-- authorizeRedemption; points below 0 are refused like 0.
unfoldable pub authorize_redemption : ℕ → ℕ → M Tables PointsError Authorization
authorize_redemption customer points s =
    let balance = available customer s.ledgers in
    if leb points 0
    then (err authorize_failed, s)
    else if ltb_ℤ balance (pos points)
    then (ok (refused balance (pos points -ℤ balance)), s)
    else (ok (authorized balance (balance -ℤ pos points)), s)

abbrev granted : Authorization → M Tables PointsError ℤ
granted (authorized balance rest) s = (ok rest, s)
granted (refused balance shortfall) s = (err insufficient, s)

pub record RedeemResult : Type 0 where
  pub points_redeemed : ℕ
  pub ledger_entry_id : ℕ
  pub remaining_balance : ℤ

-- postRedemption from the sale on; `id` is the id of a new entry.
unfoldable pub redeem_for : Sale → ℕ → ℕ → ℕ → ℕ → M Tables PointsError RedeemResult
redeem_for sale customer points id now =
    authorize_redemption customer points >>= granted >>= λ rest.
    call in_lots (deduct_points now customer points)
    >> call in_ledger (
        create_entry (sale_entry sale customer (pos 0 -ℤ pos points) redeem (sale_redeem sale.id))
          id)
    >>= λ entry.
        set_sale (λ k. record k { points_redeemed = points }) sale.id
        >> return (record {
          points_redeemed = points;
          ledger_entry_id = entry.id;
          remaining_balance = rest;
        })

-- postRedemption
unfoldable pub post_redemption : ℕ → ℕ → ℕ → ℕ → M Tables PointsError RedeemResult
post_redemption sale_id points id now = get_sale sale_id >>= λ sale.
    guard (same_sale_status sale.sale_status completed) not_completed
    >> require sale.customer_id no_customer
    >>= λ customer.
        guard (not (ltb 0 sale.points_redeemed)) already_posted
        >> redeem_for sale customer points id now
