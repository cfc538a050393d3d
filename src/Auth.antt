-- ===== src/Auth.antt =====
-- internal/auth: e-mail verification and password reset by codes that are sent to an address.
pub mod Challenges
pub mod EmailVerification
pub mod PasswordReset
mod Tests
