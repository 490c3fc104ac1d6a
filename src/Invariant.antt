-- ===== src/Invariant.antt =====
-- Invariants of the database under every call of the program.
pub mod Primitive
pub mod Pages
pub mod Engines
pub mod Attach
pub mod Groups
pub mod Drains
pub mod Calls
pub mod Tables
pub mod Tame
pub mod OpenGroup
pub mod Closed
pub mod Finished
pub mod Outbox
pub mod Queued
pub mod Paged
pub mod Seconds
