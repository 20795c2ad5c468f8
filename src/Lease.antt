-- ===== src/Lease.antt =====
-- SSH leases: an access token's temporary key on a node, from its request to its end
-- (backend/internal/service/lease.go, backend/internal/store/lease.go).
pub mod Model
pub mod Store
pub mod Keys
pub mod Requests
pub mod Holder
pub mod Admin
pub mod Nodes
pub mod Operations
pub mod Moves
pub mod Holding
pub mod Administering
pub mod Reports
pub mod Sweeping
pub mod Requesting
pub mod History
pub mod Renewal
pub mod Races
pub mod Issue
pub mod Replays
pub mod Cascade
pub mod Staleness
pub mod Confined
pub mod RevokeAll
mod Examples
