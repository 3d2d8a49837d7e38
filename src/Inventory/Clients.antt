-- ===== src/Inventory/Clients.antt =====
-- Calls of a client of the batch inventory, from an empty table.
use modern_trade_website.Prelude.Table.{sum_ℤ}
use modern_trade_website.Prelude.{refl, true, ◌∷◌, List, ℕ, false, ◌≡◌, []}
use modern_trade_website.Inventory.Rows.{stock}
use modern_trade_website.Inventory.Batches.Refine.{add, Available, Holds, deduct, Op, run, replay}
use modern_trade_website.Inventory.Batches.Refine.Steps.{run-replay}
use modern_trade_website.Prelude.Int.{pos}
use modern_trade_website.Inventory.Batches.{BatchData}

abbrev delivered_rice : BatchData
delivered_rice = record {
  store_id = 1;
  product_id = 7;
  batch_id = 12;
  expiry_date = 30;
  quantity = 5;
}

abbrev batch_calls : List Op
batch_calls = add delivered_rice 3 ∷ deduct 7 1 4 ∷ deduct 7 1 9 ∷ add delivered_rice 4 ∷ []

abbrev nothing : Available
nothing s p = 0

nothing_held : Holds 1 [] nothing
unfolding sum_ℤ
nothing_held = record { unique = tt; nonneg = tt; below = tt; view = λ s p. refl }

-- The third call fails, and takes all there is.
replayed :
    ((replay batch_calls nothing).0 ≡ true ∷ true ∷ false ∷ true ∷ [])
    × ((replay batch_calls nothing).1 1 7 ≡ 5)
replayed = (refl, refl)

run-replay_example :
    ((run batch_calls 1 []).0 ≡ (replay batch_calls nothing).0)
    × ((s p : ℕ) → stock s p (run batch_calls 1 []).1 ≡ pos ((replay batch_calls nothing).1 s p))
run-replay_example = run-replay batch_calls 1 [] nothing nothing_held
