-- ===== src/Carts/Rows.antt =====
-- The tables that a checkout reads beside the orders and the stock: carts, addresses, stores and their
-- delivery zones, products and prices. Amounts are in paisa; texts that nothing tests are left out.
use modern_trade_website.Orders.Rows.{Db as Orders}
use modern_trade_website.Prelude.{false, Option, ℕ, Bool, true, List}
use modern_trade_website.Pos.Rows.{Product, Price}

pub data CartStatus : Type 0 where
  active converted : CartStatus
  other : ℕ → CartStatus

abbrev pub is_active_cart : CartStatus → Bool
is_active_cart active = true
is_active_cart _ = false

pub record Cart : Type 0 where
  pub id : ℕ
  pub customer_id : ℕ
  pub store_id : ℕ
  pub status : CartStatus

pub record CartItem : Type 0 where
  pub cart_id : ℕ
  pub product_id : ℕ
  pub quantity : ℕ

-- `has_locality`: one of house number, street, locality and landmark is not blank.
pub record Address : Type 0 where
  pub id : ℕ
  pub customer_id : ℕ
  pub municipality_id : Option ℕ
  pub ward_id : Option ℕ
  pub has_locality : Bool

pub record Ward : Type 0 where
  pub id : ℕ
  pub municipality_id : ℕ

-- `name` orders the stores as lower(name_en) does.
pub record Store : Type 0 where
  pub id : ℕ
  pub name : ℕ
  pub published : Bool
  pub is_temporarily_closed : Bool

pub record DeliveryZone : Type 0 where
  pub id : ℕ
  pub zone_name : ℕ
  pub store_id : ℕ
  pub included_municipalities : List ℕ
  pub included_wards : List ℕ
  pub base_fee : ℕ
  pub surcharge : ℕ
  pub free_delivery_threshold : Option ℕ
  pub minimum_order_value : ℕ
  pub is_active : Bool
  pub effective_date : Option ℕ
  pub expiry_date : Option ℕ

pub record Shop : Type 0 where
  pub orders : Orders
  pub carts : List Cart
  pub cart_items : List CartItem
  pub addresses : List Address
  pub wards : List Ward
  pub stores : List Store
  pub zones : List DeliveryZone
  pub products : List Product
  pub prices : List Price
