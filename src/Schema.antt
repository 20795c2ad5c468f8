-- ===== src/Schema.antt =====
-- The check of a command's arguments against its parameter schema
-- (backend/internal/validate/schema.go).
pub mod Validate
pub mod Shapes
pub mod Objects
mod Examples
