-- ===== src/Loyalty/Lots/Expiry.antt =====
-- processExpiry and the balances.
use modern_trade_website.Prelude.{
  Bool-cases, ◌+◌, inr, arith, ◌∙◌, false, ◌∷◌, inl, ◌≡◌, List, ◌==◌, refl, ℕ, [],
}
use modern_trade_website.Prelude.Table.{select, sum, sum_ℤ}
use modern_trade_website.Loyalty.Rows.{EarnLot, LedgerEntry, Db}
use modern_trade_website.Loyalty.Lots.{
  is_due, expiry_entry, expire_lots, process_expiry, expire_lot,
}
use modern_trade_website.Prelude.{◌&&◌, ltb}
use modern_trade_website.Prelude.Int.{pos, ◌-ℤ◌, parts_of_eq, int_laws, ℤ}
use modern_trade_website.Loyalty.Ledger.{
  counts_as_available, sum_points, is_valid, posted_of, available, eq_ℤ,
}
use modern_trade_website.Prelude.Table.Keyed.{sum_ℤ-append}

-- What the lots that are due hold for a customer.
unfoldable pub due_points : ℕ → List EarnLot → ℕ
due_points customer = sum (λ l. l.customer_id == customer) (λ l. l.remaining_points)

module _ (now customer : ℕ) where
  expire_lots-available :
      (id : ℕ) (ls : List EarnLot) (db : Db)
      → available customer (expire_lots now id ls db) ≡ available customer db
  unfolding expire_lots available sum_ℤ
  expire_lots-available id [] db = refl
  expire_lots-available id (l ∷ ls) db =
      let sums = parts_of_eq (
        sum_ℤ-append (counts_as_available customer) (λ (e : LedgerEntry). e.points_signed) db.ledger
          (expiry_entry l id ∷ [])) in
      expire_lots-available (id + 1) ls (expire_lot now id l db)
      ∙ elim (Bool-cases (l.customer_id == customer)) [
        | inl k ↦ omega (int_laws, rw k at sums)
        | inr k ↦ omega (int_laws, rw k at sums)
      ]

  expire_lots-sum_points :
      (id : ℕ) (ls : List EarnLot) (db : Db)
      → sum_points customer (expire_lots now id ls db)
        ≡ sum_points customer db -ℤ pos (due_points customer ls)
  unfolding expire_lots sum_points due_points sum_ℤ sum
  expire_lots-sum_points id [] db = omega int_laws
  expire_lots-sum_points id (l ∷ ls) db =
      let sums = parts_of_eq (
        sum_ℤ-append (posted_of customer) (λ (e : LedgerEntry). e.points_signed) db.ledger
          (expiry_entry l id ∷ [])) in
      let later = parts_of_eq (expire_lots-sum_points (id + 1) ls (expire_lot now id l db)) in
      elim (Bool-cases (l.customer_id == customer)) [
        | inl k ↦ rw k (omega (int_laws, rw k at sums, later))
        | inr k ↦ rw k (omega (int_laws, rw k at sums, later))
      ]

broken : (a b : ℤ) (n : ℕ) → (eq_ℤ (a -ℤ pos n) b && (eq_ℤ a b && ltb 0 n)) ≡ false
unfolding ◌-ℤ◌
broken a b n = ground arith

-- processExpiry takes nothing off a balance, in every run: what calculateBalance calls available to a
-- customer is the same after it, although the entries that it posts take off all that the customer's due
-- lots held. So a ledger that validateLedgerIntegrity found valid, of a customer whose due lots held
-- anything, is not valid after it.
pub process_expiry-available :
    (now id customer : ℕ) (db : Db)
    → let db' = (process_expiry now id db).1 in
      let due = due_points customer (select (is_due now) db.lots) in
      (available customer db' ≡ available customer db)
      × (sum_points customer db' ≡ sum_points customer db -ℤ pos due)
      × ((is_valid customer db' && (is_valid customer db && ltb 0 due)) ≡ false)
unfolding process_expiry is_valid
process_expiry-available now id customer db =
    let due = select (is_due now) db.lots in
    let same = expire_lots-available now customer id due db in
    let less = expire_lots-sum_points now customer id due db in
    (
      same,
      less,
      rw (same, less)
          (broken (sum_points customer db) (available customer db) (due_points customer due)),
    )
