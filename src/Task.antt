-- ===== src/Task.antt =====
-- Tasks: a command to be run on a node, from its creation to its final result
-- (backend/internal/service/task.go, backend/internal/store/task.go).
pub mod Model
pub mod Store
pub mod Service
pub mod Dispatch
pub mod Agent
pub mod Creation
pub mod Claims
pub mod Operations
pub mod Advance
pub mod Lifecycle
pub mod Results
pub mod Events
pub mod Scope
pub mod Payloads
pub mod Examples
