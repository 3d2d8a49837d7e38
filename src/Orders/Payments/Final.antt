-- ===== src/Orders/Payments/Final.antt =====
-- The course of a payment.
use modern_trade_website.Orders.Web.{OrderError, found, find_order}
use modern_trade_website.Orders.Payments.{
  paid_order, pay, next_payments, update_payment_status, same_payment,
}
use modern_trade_website.Prelude.Table.Find.{find-key, find-update_ne}
use modern_trade_website.Prelude.{
  ap, some, any, ◌≢◌, inl, Option, List, ==_iff, inr, some_injective, refl, ◌∷◌, true, ◌==◌, ◌≡◌,
  sym, ◌∙◌, ℕ, ==_refl, Bool-cases, false, [],
}
use modern_trade_website.Prelude.Outcome.{
  ok, transaction-ok, Result-cases, M, ◌>>=◌, transaction-err, Result, err, then-ok,
}
use modern_trade_website.Orders.Rows.{PaymentStatus, Db, WebOrder, paid}
use modern_trade_website.Prelude.Table.{update}
use modern_trade_website.Orders.Web.Success.{found-ok}
use modern_trade_website.Otp.Once.{written}

-- A call of updatePaymentStatus.
pub record PaymentCall : Type 0 where
  pub order_id : ℕ
  pub status : PaymentStatus
  pub actor : ℕ
  pub intent : Option ℕ

abbrev pub pay_answer : PaymentCall → Db → Result OrderError WebOrder × Db
pay_answer c db = update_payment_status c.order_id c.status c.actor c.intent db

-- The state after a sequence of calls.
unfoldable pub after_payments : List PaymentCall → Db → Db
after_payments [] db = db
after_payments (c ∷ cs) db = after_payments cs (pay_answer c db).1

pay-ok :
    (status : PaymentStatus) (actor : ℕ) (intent : Option ℕ) (o : WebOrder) (db : Db) (b : WebOrder)
    → (pay status actor intent o db).0 ≡ ok b
    → (any (λ t. same_payment t status) (next_payments o.payment_status) ≡ true)
      × ((pay status actor intent o db).1.orders
          ≡ update (λ x. x.id == o.id) (paid_order status intent) db.orders)
unfolding pay
pay-ok status actor intent o db b h =
    elim (Bool-cases
      (any (λ (t : PaymentStatus). same_payment t status) (next_payments o.payment_status))) [
        | inl e ↦ rw e (refl, refl)
        | inr e ↦ cc (rw e at h)
      ]

pay_answer-ok :
    (c : PaymentCall) (db : Db) (b : WebOrder)
    → (pay_answer c db).0 ≡ ok b
    → (o : WebOrder) × (find_order c.order_id db ≡ some o)
      × (any (λ t. same_payment t c.status) (next_payments o.payment_status) ≡ true)
      × ((pay_answer c db).1.orders
          ≡ update (λ x. x.id == o.id) (paid_order c.status c.intent) db.orders)
unfolding update_payment_status
pay_answer-ok c db b h =
    let call : M Db OrderError WebOrder =
      (λ d. (found (find_order c.order_id d), d)) >>= pay c.status c.actor c.intent in
    let whole = transaction-ok call db b h in
    let first =
      then-ok (λ d. (found (find_order c.order_id d), d)) (pay c.status c.actor c.intent) db b
        (sym (ap (λ r. r.0) whole) ∙ h) in
    let passed =
      pay-ok c.status c.actor c.intent first.0 db b
        (sym (ap (λ r. r.0) first.2) ∙ sym (ap (λ r. r.0) whole) ∙ h) in
    (
      first.0,
      found-ok (find_order c.order_id db) first.0 first.1,
      passed.0,
      ap (λ r. r.1.orders) (whole ∙ first.2) ∙ passed.1,
    )

failed_payment :
    (c : PaymentCall) (db : Db) (e : OrderError)
    → (pay_answer c db).0 ≡ err e
    → (pay_answer c db).1 ≡ db
unfolding update_payment_status
failed_payment c db e h =
    let call : M Db OrderError WebOrder =
      (λ d. (found (find_order c.order_id d), d)) >>= pay c.status c.actor c.intent in
    transaction-err call db e h

settled :
    (s : PaymentStatus) (o : WebOrder)
    → o.payment_status ≡ paid
    → any (λ t. same_payment t s) (next_payments o.payment_status) ≡ false
settled s o h = rw h refl

payment_step :
    (id : ℕ) (c : PaymentCall) (db : Db) (o : WebOrder)
    → find_order id db ≡ some o
    → o.payment_status ≡ paid
    → find_order id (pay_answer c db).1 ≡ some o
payment_step id c db o h p = elim (Result-cases (pay_answer c db).0) [
  | inr (e, k) ↦ rw (failed_payment c db e k) h
  | inl (b, k) ↦
      let (own, row, allowed, written) = pay_answer-ok c db b k in
      let own_id = find-key (λ (x : WebOrder). x.id) c.order_id db.orders row in
      elim (Bool-cases (c.order_id == id)) [
        | inl i ↦
            let same = (==_iff c.order_id id).0 i in
            let mine : own ≡ o = some_injective (sym row ∙ ap (λ j. find_order j db) same ∙ h) in
            cc (allowed, settled c.status own (rw mine p))
        | inr i ↦
            let apart : own.id ≢ id = λ q. cc (rw (sym own_id ∙ q) at i, ==_refl id) in
            rw written (
              find-update_ne (λ (x : WebOrder). x.id) id own.id (paid_order c.status c.intent)
                db.orders (λ x. refl) apart
              ∙ h)
      ]
]

-- No sequence of calls of updatePaymentStatus, on this and on other orders, changes an order that
-- is PAID.
pub paid-final :
    (id : ℕ) (calls : List PaymentCall) (db : Db) (o : WebOrder)
    → find_order id db ≡ some o
    → o.payment_status ≡ paid
    → find_order id (after_payments calls db) ≡ some o
unfolding after_payments
paid-final id [] db o h p = h
paid-final id (c ∷ cs) db o h p =
    paid-final id cs (pay_answer c db).1 o (payment_step id c db o h p) p
