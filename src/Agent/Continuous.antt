-- ===== src/Agent/Continuous.antt =====
-- The continuous scheduler: src/radical/pilot/agent/scheduler/continuous.py.
pub mod Task
pub mod Find
pub mod Configure
pub mod Search
pub mod Schedule
pub mod Picks
pub mod Found
pub mod Iterate
pub mod Free
pub mod Visit
pub mod Placed
pub mod Ended
pub mod Placement
pub mod Scheduled
pub mod Allocate
pub mod Allocated
pub mod Configured
