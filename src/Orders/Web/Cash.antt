-- ===== src/Orders/Web/Cash.antt =====
-- The cash of an order paid on delivery.
use modern_trade_website.Prelude.{
  ◌∷◌, inr, ◌+◌, ℕ, Bool-cases, ◌≤◌, true, refl, ◌==◌, inl, ◌++◌, false, sym, ==_refl, Bool, ◌≡◌,
  arith, some, List, ◌∙◌, some_injective, any, ap, [], if◌then◌else◌, subst, ◌&&◌,
}
use modern_trade_website.Orders.Rows.{
  includes, paid, WebOrder, CashCollection, delivered, Db, is_cod, is_delivery, assigned,
}
use modern_trade_website.Orders.Web.{
  check_transition, updated_order, collect_cash, find_order, issue_for, next_statuses,
  write_transition, updated_fulfillment,
}
use modern_trade_website.Prelude.Outcome.{ok_injective, ok}
use modern_trade_website.Prelude.Table.{count, update}
use modern_trade_website.Orders.Web.Success.{success}
use modern_trade_website.Orders.Web.Course.{update_web_order_status-follows}
use modern_trade_website.Orders.Web.Delivery.{deliver}
use modern_trade_website.Prelude.Table.Find.{find-key}

counted :
    (p : CashCollection → Bool) (t : List CashCollection) (c : CashCollection)
    → count p (t ++ c ∷ []) ≡ count p t + (if p c then 1 else 0)
unfolding count
counted p [] c = omega arith
counted p (x ∷ xs) c = omega (arith, counted p xs c)

any-count :
    (p : CashCollection → Bool) (t : List CashCollection)
    → (any p t ≡ true → 1 ≤ count p t) × (any p t ≡ false → count p t ≡ 0)
unfolding count
any-count p [] = (λ h. cc, λ h. refl)
any-count p (x ∷ xs) =
    let later = any-count p xs in (λ h. ground (arith, later.0), λ h. ground (arith, later.1))

collected_once :
    (o : WebOrder) (actor : ℕ) (db : Db)
    → count (λ c. c.order_id == o.id) db.collections ≤ 1
    → count (λ c. c.order_id == o.id) (collect_cash o actor db) ≡ 1
collected_once o actor db h =
    let own = any-count (λ c. c.order_id == o.id) db.collections in
    elim (Bool-cases (any (λ (c : CashCollection). c.order_id == o.id) db.collections)) [
      | inl e ↦ rw e (omega (arith, own.0 e, h))
      | inr e ↦
          rw
            (e, counted (λ (c : CashCollection). c.order_id == o.id) db.collections _, ==_refl o.id)
            (omega (arith, own.1 e))
    ]

cash_written :
    (o : WebOrder) (actor : ℕ) (received : Bool) (now : ℕ) (db : Db)
    → is_cod o.payment_method ≡ true
    → count (λ c. c.order_id == o.id) db.collections ≤ 1
    → count
        (λ c. c.order_id == o.id)
        (write_transition o delivered actor received now db).collections
      ≡ 1
unfolding write_transition
cash_written o actor received now db h once =
    let fulfilled : Db = record db {
      fulfillments =
          if is_delivery o.delivery_type && true
          then update (assigned o.id) (updated_fulfillment delivered now) db.fulfillments
          else db.fulfillments;
    } in
    rw h (collected_once o actor fulfilled once)

cod_receipt :
    (o : WebOrder) (received : Bool) (db : Db)
    → is_cod o.payment_method ≡ true
    → check_transition o delivered received db ≡ ok tt
    → received ≡ true
unfolding check_transition
cod_receipt o true db h k = refl
cod_receipt o false db h k = elim (Bool-cases (includes (next_statuses o.status) delivered)) [
  | inl e ↦ cc (rw (e, h) at k)
  | inr e ↦ cc (rw e at k)
]

issue_for-collections :
    (o : WebOrder) (actor : ℕ) (db : Db)
    → (issue_for o delivered actor db).1.collections ≡ db.collections
unfolding issue_for
issue_for-collections o actor db = refl

updated-paid :
    (actor now : ℕ) (o : WebOrder)
    → is_cod o.payment_method ≡ true
    → (updated_order delivered actor now o).payment_status ≡ paid
updated-paid actor now o h = rw h refl

-- An order paid in cash is delivered only if the call confirms the receipt of the cash. After such a
-- delivery its payment status is PAID and there is exactly one cash collection for it, where there
-- was at most one before.
pub delivered-cash :
    (id actor : ℕ) (received : Bool) (now : ℕ) (db : Db) (b o : WebOrder)
    → find_order id db ≡ some o
    → is_cod o.payment_method ≡ true
    → count (λ c. c.order_id == id) db.collections ≤ 1
    → (deliver id actor received now db).0 ≡ ok b
    → let db' = (deliver id actor received now db).1 in
      (received ≡ true)
      × (b.payment_status ≡ paid)
      × (find_order id db' ≡ some b)
      × (count (λ c. c.order_id == id) db'.collections ≡ 1)
delivered-cash id actor received now db b o row paid_in_cash once h =
    let done = success id delivered actor received now db b h in
    let mine : done.before ≡ o = some_injective (sym done.row ∙ row) in
    let in_cash : is_cod done.before.payment_method ≡ true = rw mine paid_in_cash in
    let own = find-key (λ (x : WebOrder). x.id) id db.orders done.row in
    let after = (issue_for done.before delivered actor db).1 in
    let once_before : count (λ (c : CashCollection). c.order_id == done.before.id) after.collections
        ≤ 1 =
      rw (issue_for-collections done.before actor db, own) once in
    let answered = ok_injective (sym (ap (λ r. r.0) done.answer) ∙ h) in
    let (
      from, row_before, allowed, row_now, status_now, event, events_now, of_id, event_from,
      event_to,
    ) =
      update_web_order_status-follows
        (record {
          order_id = id;
          status = delivered;
          actor = actor;
          received = received;
          now = now;
        })
        db b h in
    (
      cod_receipt done.before received db in_cash done.checked,
      ap (λ (x : WebOrder). x.payment_status) (sym answered)
          ∙ updated-paid actor now done.before in_cash,
      row_now,
      rw done.answer (
          subst
            (λ i.
              count (λ (c : CashCollection). c.order_id == i)
                (write_transition done.before delivered actor received now after).collections
              ≡ 1)
            own (cash_written done.before actor received now after in_cash once_before)),
    )
