-- ===== src/Orders/Lifecycle/Refund.antt =====
-- processRefund: at most the total, and once.
use modern_trade_website.Orders.Lifecycle.{
  moved_to, amount_or_total, refund_details, set_order, transition_order_status, status_written,
  handle_transition_side_effects, process_refund, valid_transitions, invalid_transition,
}
use modern_trade_website.Prelude.{
  Bool-cases, inl, Option, ltb, ℕ, ◌≤◌, true, inr, ◌≡◌, some, refl, false, arith, if◌then◌else◌,
}
use modern_trade_website.Prelude.Table.Find.{find-update_self}
use modern_trade_website.Orders.Rows.{
  confirmed, refunded, OrderStatus, WebOrder, includes, same_status, returned, Db,
}
use modern_trade_website.Orders.Web.{find_order}
use modern_trade_website.Prelude.Outcome.{is_ok, ok, err}

-- A transition to a status other than CONFIRMED only writes the status and the event.
pub transition-plain :
    (id : ℕ) (to : OrderStatus) (by : Option ℕ) (db : Db) (o : WebOrder)
    → find_order id db ≡ some o
    → same_status to confirmed ≡ false
    → transition_order_status id to by db ≡ (
        if includes (valid_transitions o.status) to
        then (ok (moved_to to o), status_written id o.status to by db)
        else (err invalid_transition, db))
unfolding transition_order_status handle_transition_side_effects
transition-plain id to by db o row n = rw (row, n) refl

pub set_order-row :
    (id : ℕ) (f : WebOrder → WebOrder) (db : Db) (o : WebOrder)
    → ((x : WebOrder) → (f x).id ≡ x.id)
    → find_order id db ≡ some o
    → find_order id (set_order id f db) ≡ some (f o)
set_order-row id f db o k row = find-update_self (λ (x : WebOrder). x.id) id f db.orders k row

only_returned : (s : OrderStatus) → includes (valid_transitions s) refunded ≡ true → s ≡ returned
only_returned s h = ground arith

refund-ok :
    (id : ℕ) (amount by : Option ℕ) (now : ℕ) (db : Db) (b o : WebOrder)
    → find_order id db ≡ some o
    → (process_refund id amount by now db).0 ≡ ok b
    → (o.status ≡ returned)
      × (amount_or_total amount o.total_amount ≤ o.total_amount)
      × ((process_refund id amount by now db).1
          ≡ set_order id
              (refund_details (amount_or_total amount o.total_amount) now)
              (status_written id o.status refunded by db))
unfolding process_refund
refund-ok id amount by now db b o row h =
    let refund = amount_or_total amount o.total_amount in
    let plain = transition-plain id refunded by db o row refl in
    elim (Bool-cases (ltb o.total_amount refund)) [
      | inl e ↦ cc (rw (row, e) at h)
      | inr e ↦ elim (Bool-cases (includes (valid_transitions o.status) refunded)) [
        | inl k ↦ (only_returned o.status k, ground (arith, e), rw (row, e, plain, k) refl)
        | inr k ↦ cc (rw (row, e, plain, k) at h)
      ]
    ]

refund_again :
    (id : ℕ) (amount by : Option ℕ) (now : ℕ) (db : Db) (o : WebOrder)
    → find_order id db ≡ some o
    → o.status ≡ refunded
    → (is_ok (process_refund id amount by now db).0 ≡ false)
      × ((process_refund id amount by now db).1 ≡ db)
unfolding process_refund
refund_again id amount by now db o row s =
    let refund = amount_or_total amount o.total_amount in
    let plain = transition-plain id refunded by db o row refl in
    let closed : includes (valid_transitions o.status) refunded ≡ false = rw s refl in
    elim (Bool-cases (ltb o.total_amount refund)) [
      | inl e ↦ rw (row, e) (refl, refl)
      | inr e ↦ rw (row, e, plain, closed) (refl, refl)
    ]

-- A successful processRefund is of an order that was RETURNED, writes an amount of at most the order's
-- total to it (the total where none, or 0, is asked for) and makes it REFUNDED. No second refund of the
-- order succeeds, whatever amount it asks for, nor does it change anything.
pub process_refund-once :
    (id : ℕ) (amount by again by' : Option ℕ) (now now' : ℕ) (db : Db) (b o : WebOrder)
    → find_order id db ≡ some o
    → (process_refund id amount by now db).0 ≡ ok b
    → let db' = (process_refund id amount by now db).1 in
      let refund = amount_or_total amount o.total_amount in
      (o.status ≡ returned)
      × (refund ≤ o.total_amount)
      × (find_order id db' ≡ some (refund_details refund now (moved_to refunded o)))
      × (is_ok (process_refund id again by' now' db').0 ≡ false)
      × ((process_refund id again by' now' db').1 ≡ db')
process_refund-once id amount by again by' now now' db b o row h =
    let refund = amount_or_total amount o.total_amount in
    let (was, within, after) = refund-ok id amount by now db b o row h in
    let moved = set_order-row id (moved_to refunded) db o (λ x. refl) row in
    let row' : find_order id (process_refund id amount by now db).1
        ≡ some (refund_details refund now (moved_to refunded o)) =
      rw after (
        set_order-row id (refund_details refund now) (status_written id o.status refunded by db)
          (moved_to refunded o) (λ x. refl) moved) in
    let second =
      refund_again id again by' now' (process_refund id amount by now db).1 _ row' refl in
    (was, within, row', second.0, second.1)
