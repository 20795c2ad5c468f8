-- ===== src/Token.antt =====
-- Access tokens: what they permit and how they are resolved
-- (backend/internal/service/apitoken.go and backend/internal/store/apitoken.go).
pub mod Permissions
pub mod Service
pub mod Resolving
pub mod Granting
pub mod Storable
pub mod Gate
pub mod Passing
mod Examples
