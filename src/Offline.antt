-- ===== src/Offline.antt =====
-- OfflineQueueService of backend/src/services/offlineQueueService.ts: sales that a device made without
-- a connection, replayed through the till.
pub mod Waits
pub mod Drain
mod Examples
use modern_trade_website.Pos.Rows.{Db as Till, completed, Currency, Tender, Sale}
use modern_trade_website.Pos.Sales.{
  create_sale, update_sale_status, CreateSaleInput, SaleError, SaleLine,
}
use modern_trade_website.Prelude.{
  some, is_some, false, ◌=?◌, ◌&&◌, ℕ, ◌++◌, List, leb, ◌∷◌, ◌+◌, head?, none, Bool, Option, true,
  not, ltb, ◌==◌, [], if◌then◌else◌,
}
use modern_trade_website.Inventory.Issue.{Item}
use modern_trade_website.Prelude.Outcome.{return, ◌>>=◌, err, Result, M, ◌>>◌, ok}
use modern_trade_website.Prelude.Int.{ℤ}
use modern_trade_website.Loyalty.Rows.{earn}
use modern_trade_website.Prelude.Table.{order_by, count, select, update}
use modern_trade_website.Pos.Points.{post_earn_points, Tables}
use modern_trade_website.Inventory.Issue.Product.{rows}
use modern_trade_website.Payments.Webhooks.{logged}

pub data QueueStatus : Type 0 where
  pending uploaded failed : QueueStatus
  other : ℕ → QueueStatus

abbrev pub is_pending : QueueStatus → Bool
is_pending pending = true
is_pending _ = false

-- The fields of sale_data that are read.
pub record SaleData : Type 0 where
  pub sale_number : Option ℕ
  pub currency : Option Currency
  pub payment_method : Option Tender
  pub items : List SaleLine
  pub created_by : Option ℕ

pub record QueueEntry : Type 0 where
  pub id : ℕ
  pub customer_id : Option ℕ
  pub store_id : ℕ
  pub sale_data : SaleData
  pub points_calculated : ℕ
  pub queue_status : QueueStatus
  pub device_id : Option ℕ
  pub local_sale_id : Option ℕ
  pub uploaded_at : Option ℕ
  pub server_sale_id : Option ℕ
  pub retry_count : ℕ
  pub created_at : ℕ

pub record State : Type 0 where
  pub queue : List QueueEntry
  pub tables : Tables

pub record CreateQueueEntryInput : Type 0 where
  pub customer_id : Option ℕ
  pub store_id : ℕ
  pub sale_data : SaleData
  pub points_calculated : ℕ
  pub device_id : Option ℕ
  pub local_sale_id : Option ℕ

abbrev new_entry : CreateQueueEntryInput → ℕ → ℕ → QueueEntry
new_entry input id now = record {
  id = id;
  customer_id = input.customer_id;
  store_id = input.store_id;
  sale_data = input.sale_data;
  points_calculated = input.points_calculated;
  queue_status = pending;
  device_id = input.device_id;
  local_sale_id = input.local_sale_id;
  uploaded_at = none;
  server_sale_id = none;
  retry_count = 0;
  created_at = now;
}

-- addEntry
unfoldable pub add_entry : CreateQueueEntryInput → ℕ → ℕ → State → QueueEntry × State
add_entry input id now s =
    (new_entry input id now, record s { queue = s.queue ++ new_entry input id now ∷ [] })

abbrev of_device : Option ℕ → QueueEntry → Bool
of_device none e = true
of_device (some d) e = e.device_id =? d

-- queue_status = 'PENDING' AND retry_count < 5, of the device where one is given
abbrev pub to_retry : Option ℕ → QueueEntry → Bool
to_retry device e = is_pending e.queue_status && (ltb e.retry_count 5 && of_device device e)

-- getPendingEntries
unfoldable pub get_pending_entries : Option ℕ → State → List QueueEntry
get_pending_entries device s =
    order_by (λ e d. leb e.created_at d.created_at) (select (to_retry device) s.queue)

pub data SyncError : Type 0 where
  entry_not_found : SyncError
  in_sale : SaleError → SyncError

-- The texts `OFFLINE_${id}` and `offline_${id}`, and the names that the service acts under.
pub record Texts : Type 0 where
  pub offline_number : ℕ → ℕ
  pub offline_key : ℕ → ℕ
  pub offline_sync : ℕ

-- The ids of the rows that one entry may make: a sale, a ledger entry and an earn lot.
pub record Ids : Type 0 where
  pub sale : ℕ
  pub entry : ℕ
  pub lot : ℕ

abbrev or : Option ℕ → ℕ → ℕ
or none b = b
or (some a) b = a

abbrev pub sale_input : Texts → QueueEntry → CreateSaleInput
sale_input t e = record {
  sale_number = or e.sale_data.sale_number (t.offline_number e.id);
  customer_id = e.customer_id;
  store_id = e.store_id;
  currency = e.sale_data.currency;
  payment_method = e.sale_data.payment_method;
  items = e.sale_data.items;
  created_by = or e.sale_data.created_by t.offline_sync;
  idempotency_key = some (t.offline_key e.id);
}

abbrev pub relay_sale :
    {A : Type 0} → Tables → Result SaleError A × Till → Result SyncError A × Tables
relay_sale s (ok a, t) = (ok a, record s { till = t })
relay_sale s (err e, t) = (err (in_sale e), record s { till = t })

abbrev pub at_till : {A : Type 0} → M Till SaleError A → M Tables SyncError A
at_till m s = relay_sale s (m s.till)

module _ (calculate : Sale → List Item → ℤ) (texts : Texts) (expiry : ℕ → ℕ) where
  -- "Post earn points if customer exists": what it throws is logged, what it wrote stays.
  abbrev earn_after : QueueEntry → ℕ → Ids → ℕ → M Tables SyncError (Unit {0})
  earn_after e sale ids now s =
      if is_some e.customer_id && ltb 0 e.points_calculated
      then (ok tt, (post_earn_points calculate sale ids.entry ids.lot now (expiry now) s).1)
      else (ok tt, s)

  -- From the sale's creation to its points.
  unfoldable pub replay : QueueEntry → Ids → ℕ → M Tables SyncError ℕ
  replay e ids now = at_till (create_sale (sale_input texts e) ids.sale now) >>= λ sale.
      at_till (update_sale_status sale.id completed texts.offline_sync now) >>= λ done.
      earn_after e sale.id ids now >> return sale.id

  abbrev pub retried : ℕ → List QueueEntry → List QueueEntry
  retried id = update (λ e. e.id == id) (λ e. record e { retry_count = e.retry_count + 1 })

  abbrev pub marked : ℕ → ℕ → ℕ → List QueueEntry → List QueueEntry
  marked id sale now =
      update (λ e. e.id == id)
        (λ e. record e {
          queue_status = uploaded;
          uploaded_at = some now;
          server_sale_id = some sale;
        })

  abbrev pub settle : ℕ → ℕ → State → Result SyncError ℕ × Tables → Bool × State
  settle id now s (ok sale, t) = (true, record { queue = marked id sale now s.queue; tables = t })
  settle id now s (err e, t) = (false, record { queue = retried id s.queue; tables = t })

  abbrev pub sync_found : ℕ → (ℕ → Ids) → ℕ → State → Option QueueEntry → Bool × State
  sync_found id fresh now s none = (false, record s { queue = retried id s.queue })
  sync_found id fresh now s (some e) =
      if not (is_pending e.queue_status)
      then (false, s)
      else settle id now s (replay e (fresh id) now s.tables)

  -- syncEntry: whether it succeeded, and the tables. `fresh` gives the ids of new rows.
  unfoldable pub sync_entry : ℕ → (ℕ → Ids) → ℕ → State → Bool × State
  sync_entry id fresh now s = sync_found id fresh now s (head? (select (λ e. e.id == id) s.queue))

  -- The loop of syncDevice: how many were synced and how many failed.
  unfoldable pub sync_entries : List QueueEntry → (ℕ → Ids) → ℕ → State → (ℕ × ℕ) × State
  sync_entries [] fresh now s = ((0, 0), s)
  sync_entries (e ∷ es) fresh now s =
      let (success, after) = sync_entry e.id fresh now s in
      let ((synced, failures), last) = sync_entries es fresh now after in
      (if success then (synced + 1, failures) else (synced, failures + 1), last)

  -- syncDevice
  unfoldable pub sync_device : ℕ → (ℕ → Ids) → ℕ → State → (ℕ × ℕ) × State
  sync_device device fresh now s = sync_entries (get_pending_entries (some device) s) fresh now s

-- markFailedEntries
unfoldable pub mark_failed_entries : State → ℕ × State
mark_failed_entries s =
    let due : QueueEntry → Bool = λ e. is_pending e.queue_status && leb 5 e.retry_count in
    (
      count due s.queue,
      record s { queue = update due (λ e. record e { queue_status = failed }) s.queue },
    )

abbrev is_uploaded : QueueStatus → Bool
is_uploaded uploaded = true
is_uploaded _ = false

abbrev before : Option ℕ → ℕ → Bool
before none n = false
before (some t) n = ltb t n

-- cleanupOldUploadedEntries; `since` is CURRENT_TIMESTAMP less the days kept.
unfoldable pub cleanup_old_uploaded_entries : ℕ → State → ℕ × State
cleanup_old_uploaded_entries since s =
    let old : QueueEntry → Bool = λ e. is_uploaded e.queue_status && before e.uploaded_at since in
    (count old s.queue, record s { queue = select (λ e. not (old e)) s.queue })

-- getByLocalSaleId
abbrev pub get_by_local_sale_id : ℕ → ℕ → State → Option QueueEntry
get_by_local_sale_id local_sale device s =
    head? (select (λ e. e.local_sale_id =? local_sale && e.device_id =? device) s.queue)

-- deleteEntry
unfoldable pub delete_entry : ℕ → State → Bool × State
delete_entry id s = (
  is_some (head? (select (λ e. e.id == id) s.queue)),
  record s { queue = select (λ e. not (e.id == id)) s.queue },
)
