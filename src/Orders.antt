-- ===== src/Orders.antt =====
-- Orders of the web shop: the tables web_orders, web_order_items, order_events, order_fulfillment
-- and cod_cash_collections, and the services of backend/src/services that move an order along.
pub mod Rows
pub mod Web
pub mod Payments
pub mod Lifecycle
pub mod Checkout
mod Examples
