-- ===== src/Pos.antt =====
-- The point of sale: refunds.
pub mod Refunds
mod Tests
