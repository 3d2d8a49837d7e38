-- ===== src/Orders/Web/Course.antt =====
-- The course of an order: every successful call follows the diagram, and it ends.
use modern_trade_website.Prelude.{
  ℕ, suc, ◌<◌, ◌≡◌, refl, Bool, true, List, [], ◌∷◌, arith, ◌&&◌, ◌==◌, if◌then◌else◌, Bool-cases,
  inl, inr, ◌≢◌, some, ◌≤◌, ==_iff, sym, ◌∙◌, ap, subst, ==_refl, ◌++◌, some_injective,
}
use modern_trade_website.Prelude.Outcome.{
  Result, ok, is_ok, err, transaction-err, M, ◌>>=◌, ok_injective, Result-cases,
}
use modern_trade_website.Prelude.Table.{update}
use modern_trade_website.Prelude.Table.Find.{find-key, find-update_self, find-update_ne}
use modern_trade_website.Orders.Rows.{
  OrderStatus, pending, pending_payment, confirmed, picking, packed, out_for_delivery, delivered,
  WebOrder, Db, same_status, includes, order_state, OrderEvent,
}
use modern_trade_website.Orders.Web.{
  OrderError, next_statuses, check_transition, issue_for, write_transition, updated_order,
  update_web_order_status, find_order, transition_event, found, transition,
}
use modern_trade_website.Orders.Web.Success.{Succeeded, success}

-- The longest way from a status to the end of the diagram.
abbrev pub steps_left : OrderStatus → ℕ
steps_left pending = 5
steps_left pending_payment = 5
steps_left confirmed = 4
steps_left picking = 3
steps_left packed = 2
steps_left out_for_delivery = 1
steps_left _ = 0

next-steps_left :
    (s t : OrderStatus) → includes (next_statuses s) t ≡ true → steps_left t < steps_left s
next-steps_left s t h = ground arith

pub checked-allowed :
    (o : WebOrder) (status : OrderStatus) (received : Bool) (db : Db)
    → check_transition o status received db ≡ ok tt
    → includes (next_statuses o.status) status ≡ true
unfolding check_transition
checked-allowed o status received db h =
    elim (Bool-cases (includes (next_statuses o.status) status)) [
      | inl e ↦ e
      | inr e ↦ cc (rw e at h)
    ]

pub updated-status :
    (status : OrderStatus) (actor now : ℕ) (o : WebOrder)
    → ((updated_order status actor now o).status ≡ status)
      × ((updated_order status actor now o).id ≡ o.id)
updated-status status actor now o = ground arith

issue_for-orders :
    (o : WebOrder) (status : OrderStatus) (actor : ℕ) (db : Db)
    → (issue_for o status actor db).1.orders ≡ db.orders
unfolding issue_for
issue_for-orders o status actor db = elim (Bool-cases (same_status status delivered)) [
  | inl e ↦ rw e refl
  | inr e ↦ rw e refl
]

issue_for-events :
    (o : WebOrder) (status : OrderStatus) (actor : ℕ) (db : Db)
    → (issue_for o status actor db).1.events ≡ db.events
unfolding issue_for
issue_for-events o status actor db = elim (Bool-cases (same_status status delivered)) [
  | inl e ↦ rw e refl
  | inr e ↦ rw e refl
]

-- A call of updateWebOrderStatus.
pub record Call : Type 0 where
  pub order_id : ℕ
  pub status : OrderStatus
  pub actor : ℕ
  pub received : Bool
  pub now : ℕ

abbrev pub answer : Call → Db → Result OrderError WebOrder × Db
answer c db = update_web_order_status c.order_id c.status c.actor c.received c.now db

-- How many calls of a sequence, on any orders, moved the order `id`.
unfoldable pub transitions : ℕ → List Call → Db → ℕ
transitions id [] db = 0
transitions id (c ∷ cs) db =
    let (r, db') = answer c db in
    let rest = transitions id cs db' in if c.order_id == id && is_ok r then suc rest else rest

orders_after :
    (c : Call) (db : Db) (s : Succeeded c.order_id c.status c.actor c.received c.now db)
    → (answer c db).1.orders
      ≡ update (λ x. x.id == c.order_id) (updated_order c.status c.actor c.now) db.orders
unfolding write_transition
orders_after c db s =
    rw
      (
        s.answer,
        issue_for-orders s.before c.status c.actor db,
        find-key (λ (x : WebOrder). x.id) c.order_id db.orders s.row,
      )
      refl

failed_call : (c : Call) (db : Db) (e : OrderError) → (answer c db).0 ≡ err e → (answer c db).1 ≡ db
unfolding update_web_order_status
failed_call c db e h =
    let call : M Db OrderError WebOrder =
      (λ d. (found (find_order c.order_id d), d))
      >>= transition c.status c.actor c.received c.now in
    transaction-err call db e h

-- The row of the order after a call that succeeded.
row_after :
    (c : Call) (db : Db) (s : Succeeded c.order_id c.status c.actor c.received c.now db)
    → find_order c.order_id (answer c db).1 ≡ some (updated_order c.status c.actor c.now s.before)
row_after c db s = rw (orders_after c db s) (
    find-update_self (λ (x : WebOrder). x.id) c.order_id (updated_order c.status c.actor c.now)
      db.orders (λ o. (updated-status c.status c.actor c.now o).1) s.row)

other_row_after :
    (id : ℕ) (c : Call) (db : Db) (s : Succeeded c.order_id c.status c.actor c.received c.now db)
    → c.order_id ≢ id
    → find_order id (answer c db).1 ≡ find_order id db
other_row_after id c db s n = rw (orders_after c db s) (
    find-update_ne (λ (x : WebOrder). x.id) id c.order_id (updated_order c.status c.actor c.now)
      db.orders (λ o. (updated-status c.status c.actor c.now o).1) n)

-- In any sequence of calls of updateWebOrderStatus, on this and on other orders, no more calls move
-- an order than its status has steps left in the diagram: at most five from PENDING, and none from
-- a status that is delivered, cancelled or unknown.
pub transitions-bounded :
    (id : ℕ) (calls : List Call) (db : Db) (o : WebOrder)
    → find_order id db ≡ some o
    → transitions id calls db ≤ steps_left o.status
unfolding transitions
transitions-bounded id [] db o h = omega arith
transitions-bounded id (c ∷ cs) db o h = elim (Result-cases (answer c db).0) [
  | inr (e, k) ↦
      let stays = transitions-bounded id cs db o h in
      elim (Bool-cases (c.order_id == id)) [
        | inl i ↦ rw (k, i, failed_call c db e k) stays
        | inr i ↦ rw (k, i, failed_call c db e k) stays
      ]
  | inl (b, k) ↦
      let s = success c.order_id c.status c.actor c.received c.now db b k in
      elim (Bool-cases (c.order_id == id)) [
        | inl i ↦
            let same = (==_iff c.order_id id).0 i in
            let mine : s.before ≡ o =
              some_injective (sym s.row ∙ ap (λ j. find_order j db) same ∙ h) in
            let moved = updated_order c.status c.actor c.now s.before in
            let later =
              transitions-bounded id cs (answer c db).1 moved
                (subst (λ j. find_order j (answer c db).1 ≡ some moved) same (row_after c db s)) in
            let step =
              next-steps_left s.before.status c.status
                (checked-allowed s.before c.status c.received db s.checked) in
            rw (k, i)
              (omega (
                arith,
                step,
                (rw ((updated-status c.status c.actor c.now s.before).0) at later),
                ap (λ (x : WebOrder). steps_left x.status) mine,
              ))
        | inr i ↦
            let apart : c.order_id ≢ id = λ q. cc (rw q at i, ==_refl id) in
            rw i (transitions-bounded id cs (answer c db).1 o (other_row_after id c db s apart ∙ h))
      ]
]

-- A successful updateWebOrderStatus on an order: the status asked for is one the diagram allows from
-- the order's own, it is the order's status afterwards in the row that is answered and in the table,
-- and exactly one event is appended: the order's, from the old status to the new.
pub update_web_order_status-follows :
    (c : Call) (db : Db) (b : WebOrder)
    → (answer c db).0 ≡ ok b
    → let db' = (answer c db).1 in
      (o : WebOrder) × (find_order c.order_id db ≡ some o)
      × (includes (next_statuses o.status) c.status ≡ true)
      × (find_order c.order_id db' ≡ some b)
      × (b.status ≡ c.status)
      × (e : OrderEvent) × (db'.events ≡ db.events ++ e ∷ [])
      × (e.order_id ≡ c.order_id)
      × (e.from_status ≡ order_state o.status)
      × (e.to_status ≡ order_state c.status)
unfolding write_transition
update_web_order_status-follows c db b h =
    let s = success c.order_id c.status c.actor c.received c.now db b h in
    let answered : updated_order c.status c.actor c.now s.before ≡ b =
      ok_injective (sym (ap (λ r. r.0) s.answer) ∙ h) in
    (
      s.before,
      s.row,
      checked-allowed s.before c.status c.received db s.checked,
      row_after c db s ∙ ap (λ x. some x) answered,
      ap (λ (x : WebOrder). x.status) (sym answered)
          ∙ (updated-status c.status c.actor c.now s.before).0,
      transition_event s.before c.status c.actor c.received,
      rw (s.answer, issue_for-events s.before c.status c.actor db) refl,
      find-key (λ (x : WebOrder). x.id) c.order_id db.orders s.row,
      refl,
      refl,
    )
