-- ===== src/RateLimit.antt =====
-- The server's two rate limiters: failed logins, and requests to the music catalogue.
mod Tests
pub mod FailedLogins
pub mod SlidingWindow
