-- ===== src/Deploy.antt =====
-- Deployments: operations that install, update, back up, check, roll back or restore a feature on
-- its targets (backend/internal/service/deployment_ops.go, deployment_scheduler.go and
-- backend/internal/store/deployment_store.go).
pub mod Model
pub mod Store
pub mod Exec
pub mod Freeze
pub mod Service
pub mod Backups
pub mod Steps
pub mod Targets
pub mod Scheduler
pub mod Rows
pub mod Works
pub mod Outcomes
pub mod Rollouts
pub mod Planning
pub mod Creating
pub mod Finishing
pub mod Verdicts
pub mod Secrets
pub mod Claims
pub mod Cancelling
mod Examples
