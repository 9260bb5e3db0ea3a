-- ===== src/Accounts.antt =====
-- modules/foundation/auth: signing in with a one-time code, and the rotation of refresh tokens.
pub mod Otp
pub mod Tokens
pub mod Guessing
mod Examples
