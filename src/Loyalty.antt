-- ===== src/Loyalty.antt =====
-- Loyalty points: the ledger of entries and the lots that expire, and the services on them in
-- backend/src/services.
pub mod Rows
pub mod Ledger
pub mod Lots
mod Examples
