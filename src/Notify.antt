-- ===== src/Notify.antt =====
-- Delivery (internal/notify): the circuit breaker and the dispatcher.
pub mod Breaker
pub mod Dispatcher
pub mod Trips
pub mod Delivery
