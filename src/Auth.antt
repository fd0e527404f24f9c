-- ===== src/Auth.antt =====
-- Accounts: failed logins, one-time codes and customer sessions,
-- and the roles of administrators.
pub mod Lockout
pub mod Otp
pub mod Session
pub mod Roles
mod Tests
