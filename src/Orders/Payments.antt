-- ===== src/Orders/Payments.antt =====
-- updatePaymentStatus of backend/src/services/webOrderService.ts, a transaction that is rolled back
-- where it throws.
pub mod Final
use modern_trade_website.Prelude.Outcome.{transaction, ◌>>◌, ◌>>=◌, modify, return, guard, M}
use modern_trade_website.Prelude.Table.{update}
use modern_trade_website.Orders.Web.{OrderError, found, find_order}
use modern_trade_website.Prelude.{◌∷◌, Option, ◌++◌, ℕ, some, ◌==◌, List, Bool, none, ◌+◌, any, []}
use modern_trade_website.Orders.Rows.{
  WebOrder, PaymentStatus, OrderEvent, paid, failed, refunded, payment_status_change, payment_state,
  Db, payment_intent,
}
use modern_trade_website.Orders.Web.{invalid_transition}

-- validPaymentTransitions
abbrev pub next_payments : PaymentStatus → List PaymentStatus
next_payments PaymentStatus.pending = paid ∷ failed ∷ []
next_payments failed = PaymentStatus.pending ∷ paid ∷ []
next_payments _ = []

abbrev pub payment_code : PaymentStatus → ℕ
payment_code PaymentStatus.pending = 0
payment_code paid = 1
payment_code failed = 2
payment_code PaymentStatus.refunded = 3
payment_code (PaymentStatus.other n) = 4 + n

abbrev pub same_payment : PaymentStatus → PaymentStatus → Bool
same_payment s t = payment_code s == payment_code t

abbrev or_kept : Option ℕ → Option ℕ → Option ℕ
or_kept none kept = kept
or_kept (some n) kept = some n

abbrev pub paid_order : PaymentStatus → Option ℕ → WebOrder → WebOrder
paid_order status intent o = record o {
  payment_status = status;
  payment_intent_id = or_kept intent o.payment_intent_id;
}

abbrev pub payment_event : WebOrder → PaymentStatus → ℕ → Option ℕ → OrderEvent
payment_event o status actor intent = record {
  order_id = o.id;
  event_type = payment_status_change;
  from_status = payment_state o.payment_status;
  to_status = payment_state status;
  metadata = payment_intent intent;
  created_by = some actor;
}

unfoldable pub pay : PaymentStatus → ℕ → Option ℕ → WebOrder → M Db OrderError WebOrder
pay status actor intent o =
    guard (any (λ t. same_payment t status) (next_payments o.payment_status)) invalid_transition
    >> modify (λ db. record db {
      orders = update (λ x. x.id == o.id) (paid_order status intent) db.orders;
      events = db.events ++ payment_event o status actor intent ∷ [];
    })
    >> return (paid_order status intent o)

-- updatePaymentStatus
unfoldable pub update_payment_status : ℕ → PaymentStatus → ℕ → Option ℕ → M Db OrderError WebOrder
update_payment_status id status actor intent =
    transaction ((λ db. (found (find_order id db), db)) >>= pay status actor intent)
