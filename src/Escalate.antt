-- ===== src/Escalate.antt =====
-- Escalation (internal/escalate): the engine, and what it keeps.
pub mod Engine
pub mod Rungs
pub mod Chain
pub mod Ladder
pub mod Answered
pub mod Resolved
pub mod Targets
pub mod Lookups
pub mod Reach
