-- ===== src/Schedule.antt =====
-- On-call schedules (internal/schedule).
pub mod Resolver
pub mod Gaps
pub mod Spans
pub mod Steady
pub mod Refine
pub mod Zone
pub mod MidnightGap
pub mod Bisection
pub mod ClockText
pub mod Restriction
pub mod Layers
pub mod Build
pub mod Panics
pub mod Quiet
pub mod Coverage
pub mod Built
pub mod Staff
pub mod Rotation
pub mod Calendar
pub mod Turns
pub mod NextHandoff
pub mod WallClock
pub mod Overrides
