-- ===== src/Native.antt =====
-- src/native: the in-process runtime. Modelled is its scheduler.
pub mod Placement
pub mod Scheduler
