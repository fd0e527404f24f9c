-- ===== src/Inventory.antt =====
-- Ticket inventory: src/modules/inventory.
pub mod Model
pub mod Deltas
pub mod Scripts
pub mod Statements
pub mod Service
mod Tests
