-- ===== src/Payments.antt =====
-- Electronic payments: backend/src/services/paymentService.ts.
pub mod Rows
pub mod Intents
pub mod Webhooks
pub mod Refunds
mod Examples
