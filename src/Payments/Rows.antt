-- ===== src/Payments/Rows.antt =====
-- The rows that paymentService.ts of backend/src/services reads and writes, and its configuration.
-- Amounts are in paisa; an empty text is `none`. URLs, devices and metadata are left out.
use modern_trade_website.Prelude.{ℕ, Option, Bool, ◌+◌, List}
use modern_trade_website.Prelude.Int.{ℤ}

pub data Provider : Type 0 where
  esewa khalti cash card mock_qr : Provider

abbrev pub provider_code : Provider → ℕ
provider_code esewa = 0
provider_code khalti = 1
provider_code cash = 2
provider_code card = 3
provider_code mock_qr = 4

pub data IntentStatus : Type 0 where
  created completed failed refunded pending : IntentStatus
  -- any other text, such as a provider's own word
  other : ℕ → IntentStatus

abbrev pub status_code : IntentStatus → ℕ
status_code created = 0
status_code completed = 1
status_code failed = 2
status_code refunded = 3
status_code pending = 4
status_code (other n) = 5 + n

-- The names of signed fields.
pub data Field : Type 0 where
  total_amount transaction_uuid product_code : Field
  other : ℕ → Field

-- A signed text: `name=value,name=value`, or a body as JSON.
pub data Message : Type 0 where
  fields : List (Field × Option ℕ) → Message
  json : ℕ → Message

-- The form that a customer's browser posts to eSewa.
pub record EsewaForm : Type 0 where
  pub total_amount : ℕ
  pub transaction_uuid : ℕ
  pub product_code : Option ℕ
  pub signed_field_names : List Field
  pub signature : ℕ

-- provider_metadata
pub data Metadata : Type 0 where
  empty : Metadata
  form : EsewaForm → Metadata
  pidx : ℕ → Metadata

pub record PaymentIntent : Type 0 where
  pub id : ℕ
  pub intent_number : ℕ
  pub provider : Provider
  pub amount_npr : ℕ
  pub status : IntentStatus
  pub order_reference : Option ℕ
  pub customer_id : Option ℕ
  pub store_id : ℕ
  pub provider_transaction_id : Option ℕ
  pub provider_metadata : Metadata
  pub created_on : ℕ
  pub completed_at : Option ℕ
  pub refunded_at : Option ℕ
  pub idempotency_key : Option ℕ

pub data LogStatus : Type 0 where
  pending processed failed duplicate : LogStatus

pub record WebhookLog : Type 0 where
  pub id : ℕ
  pub provider : Provider
  pub webhook_id : ℕ
  pub provider_transaction_id : ℕ
  pub signature_valid : Bool
  pub is_duplicate : Bool
  pub original_webhook_id : Option ℕ
  pub payment_intent_id : Option ℕ
  pub processing_status : LogStatus

pub record Refund : Type 0 where
  pub refund_number : ℕ
  pub payment_intent_id : ℕ
  pub provider : Provider
  pub amount_npr : ℤ
  pub idempotency_key : Option ℕ

-- A row of payment_reconciliation. A sum over no rows is NULL.
pub record Reconciliation : Type 0 where
  pub reconciliation_date : ℕ
  pub provider : Provider
  pub store_id : Option ℕ
  pub transaction_count : ℕ
  pub total_amount_npr : Option ℕ
  pub successful_count : ℕ
  pub successful_amount_npr : Option ℕ
  pub failed_count : ℕ
  pub failed_amount_npr : Option ℕ
  pub refunded_count : ℕ
  pub refunded_amount_npr : Option ℕ
  pub provider_report_count : ℕ
  pub provider_report_amount_npr : ℕ
  pub count_discrepancy : ℤ
  pub amount_discrepancy_npr : ℤ
  pub is_matched : Bool

pub record Db : Type 0 where
  pub intents : List PaymentIntent
  pub logs : List WebhookLog
  pub refunds : List Refund
  pub reconciliations : List Reconciliation

-- The environment that the service reads: what is unset is `none` or false. `webhook_index` says whether
-- the database has a unique index over (provider, webhook_id) of payment_webhook_logs without a predicate,
-- which ON CONFLICT (provider, webhook_id) asks for. The migrations under database/ make only one with a
-- predicate, in 014_phase07_integration_safety.sql, so under them it is false.
pub record Config : Type 0 where
  pub webhook_index : Bool
  pub production : Bool
  pub enable_payment_mock : Bool
  pub enable_electronic_payments : Bool
  pub esewa_merchant_code : Option ℕ
  pub esewa_secret_key : Option ℕ
  pub khalti_secret_key : Option ℕ
  pub khalti_public_key : Option ℕ
  pub app_url : Option ℕ
  pub esewa_success_url : Option ℕ
  pub khalti_website_url : Option ℕ
