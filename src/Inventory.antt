-- ===== src/Inventory.antt =====
-- Physical stock: the tables batch_inventory, stock_reservations and inventory_transactions that
-- backend/src/services share, and the queries on them that more than one service makes.
pub mod Rows
pub mod Fifo
pub mod Batches
pub mod Reservations
pub mod Issue
mod Examples
mod Clients
