-- ===== src/Heartbeat.antt =====
-- Dead-man's switches (internal/heartbeat).
pub mod Sweeper
pub mod Once
