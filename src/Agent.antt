-- ===== src/Agent.antt =====
-- The agent's scheduler: src/radical/pilot/agent/scheduler.
pub mod Nodes
pub mod Continuous
pub mod Waitpool
pub mod Torus
pub mod Ordered
