-- ===== src/Traffic.antt =====
-- src/server/traffic.rs: the in-memory controls of the request path, one module for each.
pub mod Breaker
pub mod AuthFailures
pub mod Admission
