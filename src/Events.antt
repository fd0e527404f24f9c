-- ===== src/Events.antt =====
-- Events: the planning of their sessions.
pub mod Timing
mod Tests
