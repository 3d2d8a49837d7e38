-- ===== src/Pos/Points/Redeem.antt =====
-- postRedemption: the ledger, the lots and the sale after it, and a second one.
use modern_trade_website.Loyalty.Rows.{Db as Ledgers}
use modern_trade_website.Prelude.{
  true, ℕ, refl, none, ◌<◌, false, arith, leb, ◌≡◌, some, ◌==◌, ltb, ap, ◌=?◌, ◌∙◌, head?, ==_refl,
  ◌≤◌, ◌+◌,
}
use modern_trade_website.Pos.Points.{
  key_code, Tables, sale_redeem, authorized, authorize_redemption, sale_entry, redeem_for,
  already_posted, post_redemption, in_lots,
}
use modern_trade_website.Prelude.Int.{◌≤ℤ◌, pos, ◌-ℤ◌, ltb_ℤ, int_laws, parts_of_eq}
use modern_trade_website.Pos.Rows.{same_sale_status, Sale, completed}
use modern_trade_website.Prelude.Outcome.{ok, err, Result, is_ok}
use modern_trade_website.Loyalty.Ledger.{
  available, check_entry, find_by_idempotency_key, create_entry, CreateLedgerEntryInput, entry_of,
  counts_as_available, appended,
}
use modern_trade_website.Loyalty.Rows.{redeem, LedgerEntry}
use modern_trade_website.Prelude.Table.{Distinct, update, sum_ℤ, select}
use modern_trade_website.Pos.Sales.{find_sale}
use modern_trade_website.Loyalty.Lots.{deduct_points, insufficient_points}
use modern_trade_website.Loyalty.Lots.Deduct.{
  deduct_points-ledger, held_points, deduct_points-enough, deduct_points-short,
}
use modern_trade_website.Loyalty.Ledger.Balance.{create_entry-fresh, available-create_entry}
use modern_trade_website.Prelude.Table.Find.{find-update_self}

-- A sale that can redeem.
pub record IsRedeemable (s : Tables) (sale : Sale) (customer points : ℕ) : Type 0 where
  pub stored : find_sale sale.id s.till ≡ some sale
  pub is_completed : same_sale_status sale.sale_status completed ≡ true
  pub owner : sale.customer_id ≡ some customer
  pub unposted : sale.points_redeemed ≡ 0
  pub positive : 0 < points
  pub on_ledger : pos points ≤ℤ available customer s.ledgers
  pub no_entry : find_by_idempotency_key (some (key_code (sale_redeem sale.id))) s.ledgers ≡ none
  pub lot_ids : Distinct (λ l. l.id) s.ledgers.lots

module _ (s : Tables) (sale : Sale) (customer points id now : ℕ) where
  authorized-ok :
      0 < points
      → pos points ≤ℤ available customer s.ledgers
      → (authorize_redemption customer points s) ≡ (
        ok (authorized (available customer s.ledgers) (available customer s.ledgers -ℤ pos points)),
        s,
      )
  unfolding authorize_redemption
  authorized-ok h k =
      let a : leb points 0 ≡ false = ground (arith, h) in
      let b : ltb_ℤ (available customer s.ledgers) (pos points) ≡ false = ground (arith, k) in
      rw (a, b) refl

  redeem-check :
      0 < points
      → check_entry (sale_entry sale customer (pos 0 -ℤ pos points) redeem (sale_redeem sale.id))
        ≡ ok tt
  unfolding check_entry ◌-ℤ◌
  redeem-check h = ground (arith, h)

  abbrev redemption : CreateLedgerEntryInput
  redemption = sale_entry sale customer (pos 0 -ℤ pos points) redeem (sale_redeem sale.id)

  abbrev deducted : Ledgers
  deducted = (deduct_points now customer points s.ledgers).1

  abbrev redeemed : Ledgers
  redeemed = (create_entry redemption id deducted).1

  -- The tables after a redemption.
  abbrev redeemed_tables : Tables
  redeemed_tables = record s {
    ledgers = redeemed;
    till = record s.till {
      sales =
          update (λ k. k.id == sale.id) (λ k. record k { points_redeemed = points }) s.till.sales;
    };
  }

  redeem_for-ok :
      (e : LedgerEntry)
      → 0 < points
      → pos points ≤ℤ available customer s.ledgers
      → (deduct_points now customer points s.ledgers).0 ≡ ok tt
      → (create_entry redemption id deducted).0 ≡ ok e
      → redeem_for sale customer points id now s ≡ (
        ok (record {
          points_redeemed = points;
          ledger_entry_id = e.id;
          remaining_balance = available customer s.ledgers -ℤ pos points;
        }),
        redeemed_tables,
      )
  unfolding redeem_for
  redeem_for-ok e h k d c = rw (authorized-ok h k, d, c) refl

all_ok : {E : Type 0} (r : Result E (Unit {0})) → is_ok r ≡ true → r ≡ ok tt
all_ok (ok u) h = refl
all_ok (err e) h = cc

module _ (s : Tables) (sale : Sale) (customer points id now : ℕ)
    (h : IsRedeemable s sale customer points) where
  abbrev e : LedgerEntry
  e = entry_of (redemption s sale customer points id now) id

  no_entry_yet :
      find_by_idempotency_key
        (some (key_code (sale_redeem sale.id)))
        (deducted s sale customer points id now)
      ≡ none
  no_entry_yet =
      (ap (λ t. head? (select (λ e. e.idempotency_key =? key_code (sale_redeem sale.id)) t))
          (deduct_points-ledger now customer points s.ledgers)
        ∙ h.no_entry)

  created :
      (create_entry
        (redemption s sale customer points id now)
        id
        (deducted s sale customer points id now))
      ≡ appended
          (redemption s sale customer points id now)
          id
          (deducted s sale customer points id now)
          (ok tt)
  created =
      create_entry-fresh (redemption s sale customer points id now) id
        (deducted s sale customer points id now) no_entry_yet
        (redeem-check s sale customer points id now h.positive)

  found_again :
      find_sale sale.id (redeemed_tables s sale customer points id now).till
      ≡ some (record sale { points_redeemed = points })
  found_again =
      find-update_self (λ (k : Sale). k.id) sale.id (λ k. record k { points_redeemed = points })
        s.till.sales (λ k. refl) h.stored

  again_refused :
      (more id' now' : ℕ)
      → post_redemption sale.id more id' now' (redeemed_tables s sale customer points id now)
        ≡ (err already_posted, redeemed_tables s sale customer points id now)
  unfolding post_redemption
  again_refused more id' now' =
      let a : ltb 0 points ≡ true = ground (arith, h.positive) in
      rw (found_again, h.is_completed, h.owner, a) refl

  posted-ok :
      (deduct_points now customer points s.ledgers).0 ≡ ok tt
      → post_redemption sale.id points id now s ≡ (
        ok (record {
          points_redeemed = points;
          ledger_entry_id = id;
          remaining_balance = available customer s.ledgers -ℤ pos points;
        }),
        redeemed_tables s sale customer points id now,
      )
  unfolding post_redemption redeem_for
  posted-ok d =
      let a : ltb 0 sale.points_redeemed ≡ false = ground (arith, h.unposted) in
      rw (h.stored, h.is_completed, h.owner, a)
        (redeem_for-ok s sale customer points id now e h.positive h.on_ledger d
          (ap (λ r. r.0) created))

  balance :
      available customer (redeemed s sale customer points id now)
      ≡ available customer s.ledgers -ℤ pos points
  unfolding available
  balance =
      let raw =
        available-create_entry (redemption s sale customer points id now) id customer
          (deducted s sale customer points id now) e no_entry_yet (ap (λ r. r.0) created) in
      let same = parts_of_eq (
        ap (λ t. sum_ℤ (counts_as_available customer) (λ (e : LedgerEntry). e.points_signed) t)
          (deduct_points-ledger now customer points s.ledgers)) in
      let sums = parts_of_eq (rw (==_refl customer) at raw) in omega (int_laws, same, sums)

  lots_kept :
      (redeemed s sale customer points id now).lots ≡ (deducted s sale customer points id now).lots
  lots_kept = ap (λ r. r.1.lots) created

-- For a completed sale of a customer that has redeemed nothing: postRedemption of a positive number of
-- points, which the ledger has available and the customer's open lots hold, under a key that has no
-- entry yet and in a table of lots with distinct ids, succeeds. It lowers what the ledger has available
-- by exactly the points, and what the open lots hold by the same; and every later postRedemption for
-- the sale, of whatever number of points, is refused and writes nothing.
pub post_redemption-exact :
    (s : Tables) (sale : Sale) (customer points id now : ℕ)
    → IsRedeemable s sale customer points
    → points ≤ held_points now customer s.ledgers.lots
    → let (r, after) = post_redemption sale.id points id now s in
      (is_ok r ≡ true)
      × (available customer after.ledgers ≡ available customer s.ledgers -ℤ pos points)
      × (held_points now customer after.ledgers.lots + points
          ≡ held_points now customer s.ledgers.lots)
      × ((more id' now' : ℕ)
          → post_redemption sale.id more id' now' after ≡ (err already_posted, after))
post_redemption-exact s sale customer points id now h enough =
    let (done, taken) =
      deduct_points-enough now customer points s.ledgers h.lot_ids h.positive enough in
    let ran =
      posted-ok s sale customer points id now h
        (all_ok (deduct_points now customer points s.ledgers).0 done) in
    rw (ran, lots_kept s sale customer points id now h)
      (
        refl,
        balance s sale customer points id now h,
        taken,
        again_refused s sale customer points id now h,
      )

-- For a completed sale of a customer that has redeemed nothing: where the ledger has the points
-- available but the customer's open lots hold fewer, postRedemption throws, and the lots hold nothing
-- by then, while the ledger has as many points available as before and the sale is as it was.
pub post_redemption-short :
    (s : Tables) (sale : Sale) (customer points id now : ℕ)
    → IsRedeemable s sale customer points
    → held_points now customer s.ledgers.lots < points
    → let (r, after) = post_redemption sale.id points id now s in
      (r ≡ err (in_lots insufficient_points))
      × (available customer after.ledgers ≡ available customer s.ledgers)
      × (held_points now customer after.ledgers.lots ≡ 0)
      × (after.till ≡ s.till)
unfolding post_redemption redeem_for available
post_redemption-short s sale customer points id now h short =
    let (thrown, emptied) = deduct_points-short now customer points s.ledgers h.lot_ids short in
    let a : ltb 0 sale.points_redeemed ≡ false = ground (arith, h.unposted) in
    let same =
      ap (λ t. sum_ℤ (counts_as_available customer) (λ (e : LedgerEntry). e.points_signed) t)
        (deduct_points-ledger now customer points s.ledgers) in
    rw
      (
        h.stored,
        h.is_completed,
        h.owner,
        a,
        authorized-ok s sale customer points id now h.positive h.on_ledger,
        thrown,
      )
      (refl, same, emptied, refl)
