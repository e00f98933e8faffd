-- ===== src/Components.antt =====
-- The base class of all components, src/radical/pilot/utils/component.py.
pub mod Buckets
pub mod Advance
pub mod Routed
pub mod Work
pub mod Tallies
pub mod Handed
