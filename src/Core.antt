-- ===== src/Core.antt =====
-- packages/core: scheduling, run windows and timing policies.
pub mod Scheduler
pub mod Lifecycle
pub mod IdleWatchdog
