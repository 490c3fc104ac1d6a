-- ===== src/Core.antt =====
-- The domain types that every package shares (internal/core/core.go).
pub mod Enums
pub mod Time
pub mod Records
