-- ===== src/Orders/Checkout/Cancel.antt =====
-- A customer's cancellation is that of the back office, with the customer as the actor.
use modern_trade_website.Prelude.{
  inl, ◌≡◌, ◌&&◌, ap, ◌∷◌, ◌=?◌, ℕ, Bool-cases, refl, List, arith, some, true, some_injective,
  head?, Bool, inr, ◌==◌, [], false, ◌++◌,
}
use modern_trade_website.Orders.Web.{
  update_reservations, write_transition, find_order, next_statuses, cancel_web_order,
  update_web_order_status, updated_order, transition, check_transition, issue_for, transition_event,
}
use modern_trade_website.Orders.Checkout.{cancel_customer_order}
use modern_trade_website.Orders.Rows.{
  confirmed, WebOrder, OrderStatus, includes, pending_payment, pending, Db, cancelled, is_delivery,
  cod_received, OrderEvent, no_metadata,
}
use modern_trade_website.Prelude.Table.Find.{find-key}
use modern_trade_website.Prelude.Table.{select}
use modern_trade_website.Prelude.Outcome.{ok}

both_tests :
    (p q : WebOrder → Bool) (t : List WebOrder) (o : WebOrder)
    → head? (select p t) ≡ some o
    → q o ≡ true
    → head? (select (λ x. p x && q x) t) ≡ some o
unfolding select
both_tests p q [] o h k = cc
both_tests p q (x ∷ xs) o h k = elim (Bool-cases (p x)) [
  | inl e ↦
      let same : x ≡ o = some_injective (rw e at h) in
      let passes : q x ≡ true = rw same k in rw (e, passes) (ap (λ y. some y) same)
  | inr e ↦ rw e (both_tests p q xs o (rw e at h) k)
]

may_cancel :
    (s : OrderStatus)
    → includes (pending ∷ pending_payment ∷ confirmed ∷ []) s ≡ true
    → includes (next_statuses s) cancelled ≡ true
may_cancel s h = ground arith

never : (b : Bool) → (b && false) ≡ false
never b = ground arith

web_cancelled :
    (id customer now : ℕ) (db : Db) (o : WebOrder)
    → find_order id db ≡ some o
    → includes (next_statuses o.status) cancelled ≡ true
    → cancel_web_order id customer now db ≡ (
      ok (updated_order cancelled customer now o),
      write_transition o cancelled customer false now db,
    )
unfolding cancel_web_order update_web_order_status transition check_transition issue_for
web_cancelled id customer now db o row allowed = rw (row, allowed) refl

-- A customer's call of cancelCustomerOrder on an own order that is PENDING, PENDING_PAYMENT or
-- CONFIRMED, and a call of cancelWebOrder on it with the customer as the actor, both succeed, answer
-- with the same row, and leave the same tables but for one column: the event that each appends is the
-- same but for its metadata, which is {} of the first, and cod_received false of the second.
pub cancel_customer_order-as_web :
    (id customer now : ℕ) (db : Db) (o : WebOrder)
    → find_order id db ≡ some o
    → (o.customer_id =? customer) ≡ true
    → includes (pending ∷ pending_payment ∷ confirmed ∷ []) o.status ≡ true
    → (b : WebOrder) × (db' : Db) × (e : OrderEvent) × (cancel_customer_order id customer now db
        ≡ (ok b, record db' { events = db.events ++ record e { metadata = no_metadata } ∷ [] }))
      × (cancel_web_order id customer now db ≡ (
        ok b,
        record db' { events = db.events ++ record e { metadata = cod_received false } ∷ [] },
      ))
unfolding cancel_customer_order write_transition update_reservations
cancel_customer_order-as_web id customer now db o row own early =
    let mine = both_tests (λ x. x.id == id) (λ x. x.customer_id =? customer) db.orders o row own in
    let same = find-key (λ (x : WebOrder). x.id) id db.orders row in
    (
      updated_order cancelled customer now o,
      write_transition o cancelled customer false now db,
      transition_event o cancelled customer false,
      rw (mine, early, same, never (is_delivery o.delivery_type)) refl,
      web_cancelled id customer now db o row (may_cancel o.status early),
    )
