-- ===== src/Inventory/Fifo/Order.antt =====
-- ORDER BY: the rows are those of the table, sorted by expiry.
use mathlib.Core.List.{Memᴰ}
use modern_trade_website.Prelude.{
  ◌≤◌, ◌≡◌, Bool, true, false, List, [], ◌∷◌, arith, Bool-cases, inl, inr, All, All-imp,
}
use modern_trade_website.Prelude.Table.{select, insert_by, order_by, Distinct}
use modern_trade_website.Prelude.Table.Keyed.{All-select, Distinct-select, All-mem_self}
use modern_trade_website.Inventory.Rows.{Batch}
use modern_trade_website.Inventory.Fifo.Loop.{AreFrom}
use modern_trade_website.Prelude.Table.Order.{Distinct-order_by, All-insert_by, All-order_by}

-- Expiry dates never fall along the rows.
abbrev pub IsByExpiry : List Batch → Type 0
IsByExpiry [] = Unit
IsByExpiry (b ∷ bs) = All (λ c. b.expiry_date ≤ c.expiry_date) bs × IsByExpiry bs

insert_by-IsByExpiry :
    (before : Batch → Batch → Bool)
    → ((a b : Batch) → before a b ≡ true → a.expiry_date ≤ b.expiry_date)
    → ((a b : Batch) → before a b ≡ false → b.expiry_date ≤ a.expiry_date)
    → (b : Batch) (bs : List Batch) → IsByExpiry bs
    → IsByExpiry (insert_by before b bs)
unfolding insert_by
insert_by-IsByExpiry before le ge b [] h = (tt, tt)
insert_by-IsByExpiry before le ge b (c ∷ cs) h = elim (Bool-cases (before b c)) [
  | inl e ↦
      let first = le b c e in
      rw e (
        (
          first,
          All-imp (λ d. c.expiry_date ≤ d.expiry_date) (λ d. b.expiry_date ≤ d.expiry_date)
              (λ d k. omega arith) cs h.0,
        ),
        h,
      )
  | inr e ↦
      let first = ge b c e in
      rw e (
        All-insert_by before (λ d. c.expiry_date ≤ d.expiry_date) b cs first h.0,
        insert_by-IsByExpiry before le ge b cs h.1,
      )
]

-- Any order that agrees with the expiry dates gives rows sorted by expiry.
pub order_by-IsByExpiry :
    (before : Batch → Batch → Bool)
    → ((a b : Batch) → before a b ≡ true → a.expiry_date ≤ b.expiry_date)
    → ((a b : Batch) → before a b ≡ false → b.expiry_date ≤ a.expiry_date)
    → (bs : List Batch) → IsByExpiry (order_by before bs)
unfolding order_by
order_by-IsByExpiry before le ge [] = tt
order_by-IsByExpiry before le ge (b ∷ bs) =
    insert_by-IsByExpiry before le ge b (order_by before bs) (order_by-IsByExpiry before le ge bs)

-- The rows of a query with an order are rows of the table.
pub select-AreFrom :
    (before : Batch → Batch → Bool) (p : Batch → Bool) (t : List Batch)
    → Distinct (λ b. b.id) t
    → AreFrom t (order_by before (select p t))
select-AreFrom before p t u = record {
  unique = u;
  separate = Distinct-order_by before (λ b. b.id) (select p t) (Distinct-select (λ b. b.id) p t u);
  members =
      All-order_by before (λ b. Memᴰ b t) (select p t)
        (All-select (λ b. Memᴰ b t) p t (All-mem_self t));
}
