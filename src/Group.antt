-- ===== src/Group.antt =====
-- Grouping (internal/group): the engine and the ingest loop.
pub mod Engine
pub mod Ingest
pub mod Counts
pub mod Cascade
pub mod Burst
pub mod Grace
pub mod Flapping
