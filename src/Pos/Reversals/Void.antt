-- ===== src/Pos/Reversals/Void.antt =====
-- voidSale of a sale that earned and redeemed points.
use mathlib.Core.List.{append-nil}
use modern_trade_website.Loyalty.Rows.{
  Db as Ledgers, is_redeem, is_earn, LedgerEntry, EarnLot, source_code, EntryType, SourceType,
}
use modern_trade_website.Prelude.{
  none, some, leb, inl, arith, ◌+◌, ℕ, ◌∷◌, refl, false, ◌≡◌, ◌++◌, inr, Option-cases, ◌==◌, List,
  ◌<◌, [], head?, ◌=?◌, ◌*◌, sym, ◌&&◌, Bool, true, if◌then◌else◌, ◌∙◌, ap, length,
}
use modern_trade_website.Loyalty.Ledger.{
  CreateLedgerEntryInput, create_entry, check_entry, find_by_idempotency_key, entry_of,
  get_by_source,
}
use modern_trade_website.Pos.Reversals.{
  entry_of_sale, void_reason, reversal, void_sale, void_redeemed, reverse_earned,
}
use modern_trade_website.Prelude.Int.{◌-ℤ◌, pos}
use modern_trade_website.Pos.Points.{Tables, key_code, void_earn, void_redeem, points_missing}
use modern_trade_website.Pos.Rows.{same_sale_status, voided, Sale, returned}
use modern_trade_website.Prelude.Table.{Distinct, update, select}
use modern_trade_website.Prelude.Outcome.{ok, err}
use modern_trade_website.Loyalty.Lots.{get_by_ledger_entry_id, restore_points}
use modern_trade_website.Pos.Sales.{find_sale}
use modern_trade_website.Prelude.Table.Find.{select-append, head?-select-update, head?-append}
use modern_trade_website.Prelude.Table.Keyed.{sum-update, Distinct-update, first-mem}
use modern_trade_website.Loyalty.Lots.Deduct.{total_points}

-- A completed sale with points earned and points redeemed, whose entries and earn lot are there.
pub record HasBoth (s : Tables) (sale : Sale) (customer : ℕ) (e r : LedgerEntry) : Type 0 where
  pub stored : find_sale sale.id s.till ≡ some sale
  pub not_voided : same_sale_status sale.sale_status voided ≡ false
  pub not_returned : same_sale_status sale.sale_status returned ≡ false
  pub owner : sale.customer_id ≡ some customer
  pub earned : 0 < sale.points_earned
  pub redeemed : 0 < sale.points_redeemed
  pub earn_entry : entry_of_sale is_earn sale.id s ≡ some e
  pub redeem_entry : entry_of_sale is_redeem sale.id s ≡ some r
  pub no_entry : find_by_idempotency_key (some (key_code (void_redeem sale.id))) s.ledgers ≡ none
  pub lot : (l : EarnLot) × (get_by_ledger_entry_id e.id s.ledgers ≡ some l)
  pub lot_ids : Distinct (λ l. l.id) s.ledgers.lots

module _ (sale : Sale) (customer : ℕ) (e r : LedgerEntry) (id lot now : ℕ) where
  abbrev entry : CreateLedgerEntryInput
  entry =
      reversal (void_reason sale) customer (pos 0 -ℤ pos sale.points_earned) (void_earn sale.id) e

  entry-check : 0 < sale.points_earned → check_entry entry ≡ ok tt
  unfolding check_entry ◌-ℤ◌
  entry-check h = ground (arith, h)

  abbrev raised : EarnLot → EarnLot → EarnLot
  raised l k = record k {
    remaining_points = l.remaining_points + sale.points_earned;
    is_expired = false;
  }

  abbrev with_raised : EarnLot → Ledgers → Ledgers
  with_raised l g = record g { lots = update (λ k. k.id == l.id) (raised l) g.lots }

  head?-none : (t : List LedgerEntry) → head? t ≡ none → head? (t ++ []) ≡ none
  head?-none [] h = refl
  head?-none (x ∷ xs) h = cc

  other_key :
      select
        (λ (e' : LedgerEntry). e'.idempotency_key =? key_code (void_redeem sale.id))
        (entry_of entry id ∷ [])
      ≡ []
  unfolding select
  other_key = let a : (6 * sale.id + 2 == 6 * sale.id + 3) ≡ false = ground arith in rw a refl

  -- The ledger after the reversal: one more entry, or the same where it is there already.
  posted :
      (g : Ledgers)
      → 0 < sale.points_earned
      → (x : List LedgerEntry) × ((y : LedgerEntry) × ((create_entry entry id g).0 ≡ ok y))
        × ((create_entry entry id g).1.ledger ≡ g.ledger ++ x)
        × ((create_entry entry id g).1.lots ≡ g.lots)
        × (find_by_idempotency_key (some (key_code (void_redeem sale.id))) g ≡ none
            → find_by_idempotency_key
                (some (key_code (void_redeem sale.id)))
                (create_entry entry id g).1
              ≡ none)
  unfolding create_entry
  posted g h =
      elim (Option-cases (find_by_idempotency_key (some (key_code (void_earn sale.id))) g)) [
        | inl k ↦
            rw (k, entry-check h)
              (
                entry_of entry id ∷ [],
                (entry_of entry id, refl),
                refl,
                refl,
                λ a.
                    rw
                      (
                        select-append
                            (λ (e' : LedgerEntry).
                              e'.idempotency_key =? key_code (void_redeem sale.id))
                            g.ledger (entry_of entry id ∷ []),
                        other_key,
                      )
                      (head?-none _ a),
              )
        | inr (y, k) ↦ rw k ([], (y, refl), sym (append-nil g.ledger), refl, λ a. a)
      ]

  restore-ok :
      (g : Ledgers) (l : EarnLot)
      → 0 < sale.points_earned
      → get_by_ledger_entry_id e.id g ≡ some l
      → restore_points lot now customer sale.points_earned e.id g ≡ (ok tt, with_raised l g)
  unfolding restore_points
  restore-ok g l h k =
      let a : leb sale.points_earned 0 ≡ false = ground (arith, h) in rw (a, k) refl

  abbrev after_attempt : Tables → EarnLot → Tables
  after_attempt s l = record s { ledgers = (create_entry entry id (with_raised l s.ledgers)).1 }

  still_first :
      (p : EntryType → Bool) (s : Tables) (l : EarnLot) (y : LedgerEntry)
      → 0 < sale.points_earned
      → entry_of_sale p sale.id s ≡ some y
      → entry_of_sale p sale.id (after_attempt s l) ≡ some y
  unfolding get_by_source
  still_first p s l y h k =
      let (x, done, grown, same_lots, keeps) = posted (with_raised l s.ledgers) h in
      let of_sale : LedgerEntry → Bool = λ e'.
        source_code e'.source_type == source_code SourceType.sale && e'.source_id =? sale.id in
      rw
        (
          grown,
          select-append of_sale s.ledgers.ledger x,
          select-append (λ (e' : LedgerEntry). p e'.entry_type) (select of_sale s.ledgers.ledger)
              (select of_sale x),
        )
        (head?-append _ _ k)

  raised-total :
      (s : Tables) (l : EarnLot)
      → get_by_ledger_entry_id e.id s.ledgers ≡ some l
      → Distinct (λ l. l.id) s.ledgers.lots
      → total_points (with_raised l s.ledgers).lots
        ≡ total_points s.ledgers.lots + sale.points_earned
  raised-total s l k u =
      let m = (first-mem (λ (l : EarnLot). l.ledger_entry_id == e.id) s.ledgers.lots k).0 in
      omega (
        arith,
        sum-update (λ (l : EarnLot). l.id) (λ _. true) (λ l. l.remaining_points) (raised l)
            s.ledgers.lots m u,
      )

  still_both :
      (s : Tables) (l : EarnLot)
      → HasBoth s sale customer e r
      → get_by_ledger_entry_id e.id s.ledgers ≡ some l
      → HasBoth (after_attempt s l) sale customer e r
  still_both s l h k =
      let (x, done, grown, same_lots, keeps) = posted (with_raised l s.ledgers) h.earned in
      record {
        stored = h.stored;
        not_voided = h.not_voided;
        not_returned = h.not_returned;
        owner = h.owner;
        earned = h.earned;
        redeemed = h.redeemed;
        earn_entry = still_first is_earn s l e h.earned h.earn_entry;
        redeem_entry = still_first is_redeem s l r h.earned h.redeem_entry;
        no_entry = keeps h.no_entry;
        lot = (
          if l.id == l.id then raised l l else l,
          rw same_lots (
              head?-select-update (λ (l : EarnLot). l.ledger_entry_id == e.id) (λ k. k.id == l.id)
                (raised l) s.ledgers.lots (λ y. refl) k),
        );
        lot_ids = rw same_lots (
            Distinct-update (λ (l : EarnLot). l.id) (λ k. k.id == l.id) (raised l) s.ledgers.lots
              (λ y. refl) h.lot_ids);
      }

  attempt-runs :
      (s : Tables) (l : EarnLot)
      → HasBoth s sale customer e r
      → get_by_ledger_entry_id e.id s.ledgers ≡ some l
      → void_sale sale.id id lot now s ≡ (err points_missing, after_attempt s l)
  unfolding void_sale reverse_earned void_redeemed
  attempt-runs s l h k =
      let (x, (y, done), grown, same_lots, keeps) = posted (with_raised l s.ledgers) h.earned in
      let a : leb sale.points_earned 0 ≡ false = ground (arith, h.earned) in
      let b : leb sale.points_redeemed 0 ≡ false = ground (arith, h.redeemed) in
      rw
        (
          h.stored,
          h.not_voided,
          h.not_returned,
          a,
          h.earn_entry,
          h.owner,
          restore-ok s.ledgers l h.earned k,
          done,
          b,
          still_first is_redeem s l r h.earned h.redeem_entry,
          keeps h.no_entry,
        )
        refl

-- The tables after calls of voidSale, each with the ids of its new rows and its instant.
abbrev pub attempts : ℕ → List (ℕ × ℕ × ℕ) → Tables → Tables
attempts sale_id [] s = s
attempts sale_id ((id, lot, now) ∷ calls) s =
    attempts sale_id calls (void_sale sale_id id lot now s).1

module _ (sale : Sale) (customer : ℕ) (e r : LedgerEntry) where
  attempt-total :
      (s : Tables) (id lot now : ℕ)
      → HasBoth s sale customer e r
      → let (thrown, after) = void_sale sale.id id lot now s in
        (thrown ≡ err points_missing)
        × HasBoth after sale customer e r
        × (after.till ≡ s.till)
        × (total_points after.ledgers.lots ≡ total_points s.ledgers.lots + sale.points_earned)
  attempt-total s id lot now h =
      let (l, k) = h.lot in
      let (x, done, grown, same_lots, keeps) =
        posted sale customer e r id lot now (with_raised sale customer e r id lot now l s.ledgers)
          h.earned in
      rw (attempt-runs sale customer e r id lot now s l h k) (
        refl,
        still_both sale customer e r id lot now s l h k,
        refl,
        ap total_points same_lots ∙ raised-total sale customer e r id lot now s l k h.lot_ids,
      )

  -- A sale with points earned and points redeemed, whose entries and earn lot are there, can not be
  -- voided: however often voidSale is called, the next call throws, the sale is as it was, and each
  -- call has raised what the lots hold by all that the sale earned.
  pub void_sale-stuck :
      (s : Tables) (calls : List (ℕ × ℕ × ℕ)) (id lot now : ℕ)
      → HasBoth s sale customer e r
      → let after = attempts sale.id calls s in
        ((void_sale sale.id id lot now after).0 ≡ err points_missing)
        × (after.till ≡ s.till)
        × (total_points after.ledgers.lots
            ≡ total_points s.ledgers.lots + length calls * sale.points_earned)
  void_sale-stuck s [] id lot now h = ((attempt-total s id lot now h).0, refl, omega arith)
  void_sale-stuck s ((i, j, t) ∷ calls) id lot now h =
      let (thrown, both, till, total) = attempt-total s i j t h in
      let (last, tills, totals) =
        void_sale-stuck (void_sale sale.id i j t s).1 calls id lot now both in
      (last, tills ∙ till, omega (arith, total, totals))
