-- ===== src/Carts.antt =====
-- Carts, delivery areas and the checkout: cartValidationService.ts, deliveryZoneService.ts and
-- createCodOrder of checkoutService.ts in backend/src/services.
pub mod Rows
pub mod Delivery
pub mod Validation
pub mod Places
pub mod Checkout
mod Examples
