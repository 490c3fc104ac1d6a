-- ===== src/Examples.antt =====
-- Concrete inputs at which the theorems are applied.
pub mod Data
pub mod Histories
pub mod Paging
pub mod Intake
pub mod Watching
pub mod Identities
pub mod Rotations
pub mod Settings
pub mod Staffing
pub mod Covered
