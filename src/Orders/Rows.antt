-- ===== src/Orders/Rows.antt =====
-- The rows that webOrderService.ts, orderLifecycleService.ts and checkoutService.ts in
-- backend/src/services read and write. Amounts are in paisa. Addresses, texts, and the columns that
-- no code here tests are left out; NULL is none.
use modern_trade_website.Prelude.{ℕ, Bool, true, false, Option, List, ◌+◌, ◌==◌, any, not, ◌&&◌}
use modern_trade_website.Inventory.Rows.{Shelf}
use modern_trade_website.Inventory.Issue.{Item}

-- `other` is any text that the services do not name.
pub data OrderStatus : Type 0 where
  draft pending pending_payment confirmed picking packed out_for_delivery : OrderStatus
  delivered return_requested returned cancelled refunded : OrderStatus
  other : ℕ → OrderStatus

abbrev pub code : OrderStatus → ℕ
code draft = 0
code pending = 1
code pending_payment = 2
code confirmed = 3
code picking = 4
code packed = 5
code out_for_delivery = 6
code delivered = 7
code return_requested = 8
code returned = 9
code cancelled = 10
code refunded = 11
code (other n) = 12 + n

-- s === t
abbrev pub same_status : OrderStatus → OrderStatus → Bool
same_status s t = code s == code t

-- list.includes(s)
abbrev pub includes : List OrderStatus → OrderStatus → Bool
includes list s = any (λ t. same_status t s) list

pub data PaymentStatus : Type 0 where
  pending paid failed refunded : PaymentStatus
  other : ℕ → PaymentStatus

pub data PaymentMethod : Type 0 where
  cod : PaymentMethod
  other : ℕ → PaymentMethod

pub data DeliveryType : Type 0 where
  delivery : DeliveryType
  other : ℕ → DeliveryType

pub record WebOrder : Type 0 where
  pub id : ℕ
  pub customer_id : Option ℕ
  pub store_id : ℕ
  pub cart_id : Option ℕ
  pub reservation_id : Option ℕ
  pub status : OrderStatus
  pub payment_method : PaymentMethod
  pub payment_status : PaymentStatus
  pub payment_intent_id : Option ℕ
  pub delivery_type : DeliveryType
  pub subtotal : ℕ
  pub shipping_amount : ℕ
  pub total_amount : ℕ
  pub idempotency_key : Option ℕ
  pub idempotency_request_fingerprint : Option ℕ
  pub cancelled_at : Option ℕ
  pub cancelled_by : Option ℕ
  pub cod_collected_at : Option ℕ
  pub cod_collected_by : Option ℕ
  pub returned_at : Option ℕ
  pub refunded_at : Option ℕ
  pub refund_amount : Option ℕ

pub data EventType : Type 0 where
  status_change cancelled payment_status_change : EventType
  created confirmed picking packed shipped delivered return_requested returned refunded : EventType

-- A status of an order or of its payment, as order_events keeps both in one column.
pub data EventStatus : Type 0 where
  order_state : OrderStatus → EventStatus
  payment_state : PaymentStatus → EventStatus
  -- NULL, for a new order
  no_state : EventStatus

-- `details`: what the caller of the lifecycle passes, or the delivery of a new order; it is left out.
pub data EventMetadata : Type 0 where
  no_metadata details : EventMetadata
  cod_received : Bool → EventMetadata
  payment_intent : Option ℕ → EventMetadata

pub record OrderEvent : Type 0 where
  pub order_id : ℕ
  pub event_type : EventType
  pub from_status : EventStatus
  pub to_status : EventStatus
  pub metadata : EventMetadata
  pub created_by : Option ℕ

pub data FulfillmentStatus : Type 0 where
  in_progress completed cancelled : FulfillmentStatus
  other : ℕ → FulfillmentStatus

pub record Fulfillment : Type 0 where
  pub id : ℕ
  pub order_id : ℕ
  pub status : FulfillmentStatus
  pub created_at : ℕ
  pub started_at : Option ℕ
  pub dispatched_at : Option ℕ
  pub completed_at : Option ℕ
  pub delivered_at : Option ℕ

pub record CashCollection : Type 0 where
  pub order_id : ℕ
  pub store_id : ℕ
  pub fulfillment_id : Option ℕ
  pub collected_by : ℕ
  pub amount : ℕ

pub record Db : Type 0 where
  pub orders : List WebOrder
  pub items : List Item
  pub events : List OrderEvent
  pub fulfillments : List Fulfillment
  pub collections : List CashCollection
  pub shelf : Shelf

abbrev pub is_cod : PaymentMethod → Bool
is_cod cod = true
is_cod (other n) = false

abbrev pub is_delivery : DeliveryType → Bool
is_delivery delivery = true
is_delivery (other n) = false

abbrev pub is_cancelled : FulfillmentStatus → Bool
is_cancelled cancelled = true
is_cancelled _ = false

-- WHERE order_id = $1 AND status <> 'CANCELLED'
abbrev pub assigned : ℕ → Fulfillment → Bool
assigned id f = f.order_id == id && not (is_cancelled f.status)
