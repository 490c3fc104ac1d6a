-- ===== src/Store.antt =====
-- The store (internal/store): the tables, the transaction, and the statements on each table.
pub mod Table
pub mod Keeps
pub mod Tx
pub mod Timers
pub mod Incidents
pub mod Alerts
pub mod Notifications
pub mod Key
pub mod Due
pub mod Soonest
pub mod Claims
pub mod Heartbeats
pub mod Overrides
pub mod Retention
pub mod Leads
pub mod Pruned
