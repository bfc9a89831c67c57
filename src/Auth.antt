-- ===== src/Auth.antt =====
-- services/auth.
pub mod Throttle
pub mod Tokens
pub mod Sessions
pub mod Invites
mod Tests
