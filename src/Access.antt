-- ===== src/Access.antt =====
-- Signing in and the event bus: one-time codes, numeric codes, the sign-up policy.
pub mod OneTime
pub mod Redeeming
pub mod Numeric
pub mod Publishing
pub mod Otp
pub mod Bus
pub mod Signup
pub mod Allowlist
