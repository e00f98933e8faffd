-- ===== src/Tmgr.antt =====
-- The task manager's scheduler: src/radical/pilot/tmgr/scheduler.
pub mod Base
pub mod Early
pub mod Counts
pub mod Backfilling
pub mod RoundRobin
