-- ===== src/Loyalty/Lots/Deduct.antt =====
-- deductPoints takes what it is asked for from the lots; where they are short it has emptied them by
-- the time it throws.
use modern_trade_website.Prelude.{
  inr, ◌≡◌, Bool-cases, Bool, min, leb→le, ◌<◌, ◌==◌, arith, lt→ltb, ℕ, ◌∙◌, inl, ◌+◌, refl, All,
  false, ◌∷◌, ◌-◌, true, ◌≤◌, leb, ◌≢◌, List, [], ltb,
}
use modern_trade_website.Prelude.Table.Keyed.{
  Distinct-select, All-select, sum-update, Distinct-update, mem-update_ne, All-mem_self,
}
use modern_trade_website.Prelude.Outcome.{is_ok, err}
use modern_trade_website.Prelude.Table.Order.{
  sum-order_by, All-order_by, order_by-select-All, Distinct-order_by,
}
use modern_trade_website.Loyalty.Lots.{
  get_customer_earn_lots, deduct_points, insufficient_points, deduct_lots, set_remaining, is_open,
}
use modern_trade_website.Prelude.Table.{select, Distinct, sum}
use modern_trade_website.Loyalty.Rows.{EarnLot, Db}
use mathlib.Core.List.{Memᴰ}

-- What the open lots of a customer hold.
abbrev pub held_points : ℕ → ℕ → List EarnLot → ℕ
held_points now customer = sum (is_open now customer) (λ l. l.remaining_points)

abbrev pub total_points : List EarnLot → ℕ
total_points = sum (λ _. true) (λ l. l.remaining_points)

-- Lots that a query returned from the table.
record AreLots (t ls : List EarnLot) : Type 0 where
  pub unique : Distinct (λ l. l.id) t
  pub separate : Distinct (λ l. l.id) ls
  pub members : All (λ l. Memᴰ l t) ls

abbrev with_points : ℕ → EarnLot → EarnLot
with_points n l = record l { remaining_points = n }

still-mem :
    (n : ℕ) (l : EarnLot) (t ls : List EarnLot)
    → All (λ k. k.id ≢ l.id) ls
    → All (λ k. Memᴰ k t) ls
    → All (λ k. Memᴰ k (set_remaining n l.id t)) ls
still-mem n l t [] a m = tt
still-mem n l t (k ∷ ks) a m = (
  mem-update_ne (λ (x : EarnLot). x.id) l.id (with_points n) t m.0 a.0,
  still-mem n l t ks a.1 m.1,
)

AreLots-step :
    (n : ℕ) (l : EarnLot) (ls t : List EarnLot)
    → AreLots t (l ∷ ls)
    → AreLots (set_remaining n l.id t) ls
AreLots-step n l ls t f = record {
  unique =
      Distinct-update (λ (x : EarnLot). x.id) (λ x. x.id == l.id) (with_points n) t (λ x. refl)
        f.unique;
  separate = f.separate.1;
  members = still-mem n l t ls f.separate.0 f.members.1;
}

-- What is still to be deducted after the loop, and what the loop took.
deduct_lots-total :
    (ls : List EarnLot) (n : ℕ) (t : List EarnLot) → (deduct_lots ls n t).1 ≡ n - total_points ls
unfolding deduct_lots sum
deduct_lots-total [] n t = omega arith
deduct_lots-total (l ∷ ls) n t =
    let d = min n l.remaining_points in
    ground (arith, deduct_lots-total ls (n - d) (set_remaining (l.remaining_points - d) l.id t))

deduct_lots-held :
    (now customer : ℕ) (ls : List EarnLot) (n : ℕ) (t : List EarnLot)
    → AreLots t ls
    → All (λ l. is_open now customer l ≡ true) ls
    → held_points now customer (deduct_lots ls n t).0 + min n (total_points ls)
      ≡ held_points now customer t
unfolding deduct_lots sum
deduct_lots-held now customer [] n t f h = omega arith
deduct_lots-held now customer (l ∷ ls) n t f h = elim (Bool-cases (leb n 0)) [
  | inl e ↦ rw e (omega (arith, leb→le n 0 e))
  | inr e ↦
      let d = min n l.remaining_points in
      let left = l.remaining_points - d in
      let later =
        deduct_lots-held now customer ls (n - d) (set_remaining left l.id t)
          (AreLots-step left l ls t f) h.1 in
      let step =
        sum-update (λ (x : EarnLot). x.id) (is_open now customer) (λ x. x.remaining_points)
          (with_points left) t f.members.0 f.unique in
      rw e (omega (arith, later, rw h.0 at step))
]

sum-select :
    (p : EarnLot → Bool) (t : List EarnLot)
    → total_points (select p t) ≡ sum p (λ l. l.remaining_points) t
unfolding sum select
sum-select p [] = refl
sum-select p (l ∷ ls) = elim (Bool-cases (p l)) [
  | inl e ↦ rw e (omega (arith, sum-select p ls))
  | inr e ↦ rw e (omega (arith, sum-select p ls))
]

module _ (now customer : ℕ) (db : Db) (u : Distinct (λ l. l.id) db.lots) where
  abbrev rows : List EarnLot
  rows = get_customer_earn_lots now customer false db

  rows-AreLots : AreLots db.lots rows
  unfolding get_customer_earn_lots
  rows-AreLots = record {
    unique = u;
    separate =
        Distinct-order_by _ (λ (l : EarnLot). l.id) _
          (Distinct-select (λ (l : EarnLot). l.id) _ db.lots u);
    members =
        All-order_by _ (λ (l : EarnLot). Memᴰ l db.lots) _
          (All-select (λ (l : EarnLot). Memᴰ l db.lots) _ db.lots (All-mem_self db.lots));
  }

  rows_open : All (λ l. is_open now customer l ≡ true) rows
  unfolding get_customer_earn_lots
  rows_open = order_by-select-All _ (is_open now customer) db.lots

  rows-total : total_points rows ≡ held_points now customer db.lots
  unfolding get_customer_earn_lots
  rows-total =
      sum-order_by _ (λ _. true) (λ (l : EarnLot). l.remaining_points) _
      ∙ sum-select (is_open now customer) db.lots

-- In a table of lots with distinct ids, with enough points in the customer's open lots, deductPoints
-- of a positive number succeeds and lowers what these lots hold by exactly the points asked for.
pub deduct_points-enough :
    (now customer n : ℕ) (db : Db)
    → Distinct (λ l. l.id) db.lots
    → 0 < n
    → n ≤ held_points now customer db.lots
    → let (r, db') = deduct_points now customer n db in
      (is_ok r ≡ true) × (held_points now customer db'.lots + n ≡ held_points now customer db.lots)
unfolding deduct_points
deduct_points-enough now customer n db u positive enough =
    let ls = rows now customer db u in
    let total = rows-total now customer db u in
    let done : (deduct_lots ls n db.lots).1 ≡ 0 =
      omega (arith, deduct_lots-total ls n db.lots, total, enough) in
    let taken =
      deduct_lots-held now customer ls n db.lots (rows-AreLots now customer db u)
        (rows_open now customer db u) in
    let some_asked : leb n 0 ≡ false = ground (arith, positive) in
    rw (some_asked, done) (refl, omega (arith, taken, total, enough))

-- In a table of lots with distinct ids, where the customer's open lots hold too little deductPoints
-- throws, and they hold nothing by then: the points that were taken are not put back.
pub deduct_points-short :
    (now customer n : ℕ) (db : Db)
    → Distinct (λ l. l.id) db.lots
    → held_points now customer db.lots < n
    → let (r, db') = deduct_points now customer n db in
      (r ≡ err insufficient_points) × (held_points now customer db'.lots ≡ 0)
unfolding deduct_points
deduct_points-short now customer n db u short =
    let ls = rows now customer db u in
    let total = rows-total now customer db u in
    let left : 0 < (deduct_lots ls n db.lots).1 =
      omega (arith, deduct_lots-total ls n db.lots, total, short) in
    let taken =
      deduct_lots-held now customer ls n db.lots (rows-AreLots now customer db u)
        (rows_open now customer db u) in
    let some_asked : leb n 0 ≡ false = ground (arith, short) in
    rw (some_asked, lt→ltb 0 (deduct_lots ls n db.lots).1 left)
      (refl, omega (arith, taken, total, short))

-- deductPoints writes to the lots alone.
pub deduct_points-ledger :
    (now customer n : ℕ) (db : Db) → ((deduct_points now customer n db).1.ledger ≡ db.ledger)
unfolding deduct_points
deduct_points-ledger now customer n db =
    let left = (deduct_lots (get_customer_earn_lots now customer false db) n db.lots).1 in
    elim (Bool-cases (leb n 0)) [
      | inl e ↦ rw e refl
      | inr e ↦ elim (Bool-cases (ltb 0 left)) [ inl k ↦ rw (e, k) refl | inr k ↦ rw (e, k) refl ]
    ]
