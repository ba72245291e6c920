-- ===== src/Worker.antt =====
-- src/worker: the lifecycle of the external workers.
pub mod Status
pub mod Gate
pub mod Supervisor
pub mod Swap
pub mod Launch
pub mod Plan
pub mod Runner
