-- ===== src/Pos/Rows.antt =====
-- The rows that posService.ts in backend/src/services reads and writes: sales, sale_items, and the
-- products and prices of a sale. Amounts are in paisa; `other` is any text the service does not name.
use modern_trade_website.Prelude.{false, true, ◌+◌, Bool, any, List, Option, ◌==◌, ℕ}
use modern_trade_website.Inventory.Rows.{Shelf}
use modern_trade_website.Inventory.Issue.{Item}

pub data SaleStatus : Type 0 where
  draft pending completed voided returned : SaleStatus
  other : ℕ → SaleStatus

abbrev pub sale_code : SaleStatus → ℕ
sale_code draft = 0
sale_code pending = 1
sale_code completed = 2
sale_code voided = 3
sale_code returned = 4
sale_code (other n) = 5 + n

abbrev pub same_sale_status : SaleStatus → SaleStatus → Bool
same_sale_status s t = sale_code s == sale_code t

-- list.includes(s)
abbrev pub sale_includes : List SaleStatus → SaleStatus → Bool
sale_includes list s = any (λ t. same_sale_status t s) list

pub data Currency : Type 0 where
  npr : Currency
  other : ℕ → Currency

pub data Tender : Type 0 where
  cash : Tender
  other : ℕ → Tender

abbrev pub is_npr : Currency → Bool
is_npr npr = true
is_npr (Currency.other n) = false

abbrev pub is_cash : Tender → Bool
is_cash cash = true
is_cash (Tender.other n) = false

pub record Sale : Type 0 where
  pub id : ℕ
  pub sale_number : ℕ
  pub customer_id : Option ℕ
  pub store_id : ℕ
  pub total_amount : ℕ
  pub points_earned : ℕ
  pub points_redeemed : ℕ
  pub currency : Currency
  pub payment_method : Tender
  pub sale_status : SaleStatus
  pub idempotency_key : Option ℕ
  pub created_by : ℕ
  pub updated_by : Option ℕ

pub record Product : Type 0 where
  pub id : ℕ
  pub published : Bool

pub record Price : Type 0 where
  pub product_id : ℕ
  pub store_id : Option ℕ
  pub price : ℕ
  pub active : Bool
  pub valid_from : ℕ
  pub valid_to : Option ℕ

pub record Db : Type 0 where
  pub sales : List Sale
  pub items : List Item
  pub products : List Product
  pub prices : List Price
  pub shelf : Shelf
