-- ===== src/Limits.antt =====
-- The limiter of failed sign-ins (backend/internal/security/ratelimit.go).
pub mod Login
pub mod Lockout
pub mod Enough
pub mod Idle
mod Examples
