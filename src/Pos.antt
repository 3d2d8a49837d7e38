-- ===== src/Pos.antt =====
-- The till: backend/src/services/posService.ts.
pub mod Rows
pub mod Sales
pub mod Points
pub mod Reversals
mod Examples
mod Accounts
