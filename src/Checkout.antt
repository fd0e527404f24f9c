-- ===== src/Checkout.antt =====
-- The checkout: payments at the counter and holds that expire.
pub mod Records
pub mod OfflinePayment
pub mod HoldExpiration
pub mod Recovery
pub mod Upsert
pub mod Release
pub mod Settlement
pub mod Hosted
pub mod Verification
pub mod Callback
pub mod Redirect
pub mod PaidRows
pub mod Confirmation
mod Tests
