-- ===== src/Offline/Examples.antt =====
-- A device's queue at concrete tables.
use modern_trade_website.Pos.Rows.{Sale}
use modern_trade_website.Offline.{
  Ids, State, replay, get_pending_entries, sync_device, sync_entry, Texts, sync_entries, QueueEntry,
  pending,
}
use modern_trade_website.Prelude.{◌*◌, none, refl, ◌+◌, ℕ, arith, ◌≡◌, List, ◌∷◌, some, []}
use modern_trade_website.Prelude.Table.{order_by, Distinct, insert_by, update, select}
use modern_trade_website.Prelude.Int.{pos, ℤ}
use modern_trade_website.Offline.Drain.{passes-drain, passes}
use modern_trade_website.Pos.Sales.{create_sale}
use modern_trade_website.Inventory.Issue.{Item}

-- A sale without items, which the till refuses.
abbrev refused_entry : QueueEntry
refused_entry = record {
  id = 1;
  customer_id = none;
  store_id = 1;
  sale_data = record {
    sale_number = none;
    currency = none;
    payment_method = none;
    items = [];
    created_by = none;
  };
  points_calculated = 0;
  queue_status = pending;
  device_id = some 4;
  local_sale_id = some 2;
  uploaded_at = none;
  server_sale_id = none;
  retry_count = 2;
  created_at = 10;
}

abbrev offline_state : State
offline_state = record {
  queue = refused_entry ∷ record refused_entry { id = 2; retry_count = 0 } ∷ [];
  tables = record {
    till = record {
      sales = [];
      items = [];
      products = [];
      prices = [];
      shelf = record { batches = []; reservations = []; movements = [] };
    };
    ledgers = record { ledger = []; audit = []; lots = [] };
    returns = [];
    return_items = [];
  };
}

abbrev texts : Texts
texts = record { offline_number = λ i. 2 * i; offline_key = λ i. 2 * i + 1; offline_sync = 0 }

abbrev fresh_ids : ℕ → Ids
fresh_ids i = record { sale = 10 * i; entry = 10 * i + 1; lot = 10 * i + 2 }

abbrev five_passes : List ((ℕ → Ids) × ℕ)
five_passes =
    (fresh_ids, 20) ∷ (fresh_ids, 21) ∷ (fresh_ids, 22) ∷ (fresh_ids, 23) ∷ (fresh_ids, 24) ∷ []

abbrev no_points : Sale → List Item → ℤ
no_points s items = pos 0

abbrev a_year : ℕ → ℕ
a_year now = now + 365

queue_ids : Distinct (λ e. e.id) offline_state.queue
queue_ids = omega arith

-- One pass raises the counters of both.
one_pass : (sync_device no_points texts a_year 4 fresh_ids 20 offline_state).0 ≡ (0, 2)
unfolding sync_device sync_entries sync_entry replay create_sale get_pending_entries order_by
    insert_by select update
one_pass = refl

passes-drain_example :
    let after = passes no_points texts a_year 4 five_passes offline_state in
    (get_pending_entries (some 4) after ≡ [])
    × (sync_device no_points texts a_year 4 fresh_ids 25 after ≡ ((0, 0), after))
passes-drain_example =
    passes-drain no_points texts a_year 4 five_passes fresh_ids 25 offline_state queue_ids
      (omega arith)
