-- ===== src/Inventory/Batches.antt =====
-- BatchService of backend/src/services/batchService.ts over the table batch_inventory. Its
-- statements run outside a transaction, so a call that throws leaves what it wrote.
pub mod Deduct
pub mod Adjust
pub mod Merge
pub mod Refine
use mathlib.Core.List.{Memᴰ}
use modern_trade_website.Prelude.{
  ℕ, ◌-◌, ◌+◌, Bool, true, false, List, [], ◌∷◌, ◌++◌, Option, none, some, ◌&&◌, ◌==◌, ltb, leb,
  if◌then◌else◌, min, any, head?,
}
use modern_trade_website.Prelude.Int.{ℤ, pos, pos_part, ◌+ℤ◌, ◌-ℤ◌, ltb_ℤ}
use modern_trade_website.Prelude.Outcome.{Result, ok, err}
use modern_trade_website.Prelude.Table.{select, update, sum_ℤ, order_by}
use modern_trade_website.Inventory.Rows.{Batch, of_product}
use modern_trade_website.Inventory.Fifo.{batches_for_fifo, deduct_rows, portion, by_expiry}

pub data BatchError : Type 0 where
  insufficient_inventory batch_not_found below_zero invalid_number : BatchError

pub record BatchData : Type 0 where
  pub store_id : ℕ
  pub product_id : ℕ
  pub batch_id : ℕ
  pub expiry_date : ℕ
  pub quantity : ℕ

abbrev is_batch : BatchData → Batch → Bool
is_batch d b = of_product d.store_id d.product_id b && b.batch_id == d.batch_id

abbrev insert_batch : BatchData → ℕ → ℕ → List Batch → Option Batch → List Batch
insert_batch d id now t none =
    t
    ++ record {
      id = id;
      store_id = d.store_id;
      product_id = d.product_id;
      batch_id = d.batch_id;
      expiry_date = d.expiry_date;
      quantity = pos d.quantity;
      created_at = now;
    }
      ∷ []
insert_batch d id now t (some b) =
    update (λ x. x.id == b.id) (λ x. record x { quantity = x.quantity +ℤ pos d.quantity }) t

-- addBatchInventory: more of a batch that is there, or a new row.
unfoldable pub add_batch_inventory : BatchData → ℕ → ℕ → List Batch → List Batch
add_batch_inventory d id now t = insert_batch d id now t (head? (select (is_batch d) t))

-- The rows that the loop of deductFromBatch returns, as each UPDATE leaves them.
unfoldable pub updated_batches : List Batch → ℕ → List Batch
updated_batches [] remaining = []
updated_batches (b ∷ bs) remaining =
    let d = portion remaining b in
    let rest = record b { quantity = b.quantity -ℤ pos d } ∷ updated_batches bs (remaining - d) in
    if leb remaining 0 then [] else rest

-- deductFromBatch
unfoldable pub deduct_from_batch :
    ℕ → ℕ → ℕ → List Batch → Result BatchError (List Batch) × List Batch
unfolding updated_batches deduct_rows
deduct_from_batch product store quantity t =
    let rows = batches_for_fifo product store t in
    let (t', remaining) = deduct_rows rows quantity t in
    (if ltb 0 remaining then err insufficient_inventory else ok (updated_batches rows quantity), t')

abbrev checked : Option Batch → Result BatchError Batch
checked none = err batch_not_found
checked (some b) = if ltb_ℤ b.quantity (pos 0) then err below_zero else ok b

-- adjustBatchQuantity: the UPDATE runs before the result is checked.
unfoldable pub adjust_batch_quantity : ℕ → ℤ → List Batch → Result BatchError Batch × List Batch
adjust_batch_quantity id adjustment t =
    let t' = update (λ b. b.id == id) (λ b. record b { quantity = b.quantity +ℤ adjustment }) t in
    (checked (head? (select (λ b. b.id == id) t')), t')

-- id = ANY($1)
abbrev pub among : List ℕ → Batch → Bool
among ids b = any (λ i. b.id == i) ids

-- `totalQuantity += batch.quantity` from 0 on: a DECIMAL is answered as a text, so this joins texts. Of
-- no rows it is 0, and of one row `0` before its digits, which is that quantity unless a minus sign
-- follows. Of several rows it has several decimal points and is no number.
unfoldable pub joined_quantity : List Batch → Option ℤ
joined_quantity [] = some (pos 0)
joined_quantity (b ∷ []) = if ltb_ℤ b.quantity (pos 0) then none else some b.quantity
joined_quantity (b ∷ c ∷ bs) = none

-- The UPDATE of the target and the DELETE of the sources. The UPDATE refuses what is no number.
abbrev pub merged :
    ℕ → List ℕ → List Batch → Option ℤ → Result BatchError (Option Batch) × List Batch
merged target sources t none = (err invalid_number, t)
merged target sources t (some total) =
    let t' = update (λ b. b.id == target) (λ b. record b { quantity = b.quantity +ℤ total }) t in
    (
      ok (head? (select (λ b. b.id == target) t')),
      select (λ b. if among sources b then false else true) t',
    )

-- mergeBatches
unfoldable pub merge_batches :
    ℕ → List ℕ → List Batch → Result BatchError (Option Batch) × List Batch
merge_batches target sources t =
    merged target sources t (joined_quantity (select (among sources) t))

-- getExpiringBatches and getExpiredBatches, for a store or for all.
abbrev in_store : Option ℕ → Batch → Bool
in_store none b = true
in_store (some s) b = b.store_id == s

unfoldable pub get_expiring_batches : ℕ → ℕ → Option ℕ → List Batch → List Batch
get_expiring_batches today days store t =
    order_by by_expiry (select (λ b. leb b.expiry_date (today + days) && in_store store b) t)

unfoldable pub get_expired_batches : ℕ → Option ℕ → List Batch → List Batch
get_expired_batches today store t =
    order_by by_expiry (select (λ b. ltb b.expiry_date today && in_store store b) t)
