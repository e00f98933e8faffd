-- ===== src/Api.antt =====
-- The objects of the application: src/radical/pilot/task.py and task_manager.py, pilot.py and
-- pilot_manager.py.
pub mod Tasks
pub mod Wait
pub mod Reached
pub mod Waited
pub mod Pull
pub mod Pulled
pub mod Released
pub mod Failed
pub mod Lost
pub mod Pilots
