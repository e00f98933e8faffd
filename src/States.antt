-- ===== src/States.antt =====
-- states.py: the state models of pilots and tasks.
pub mod Passed
pub mod Replay
pub mod Highest
pub mod Pilot
pub mod Task
