-- ===== src/Samples.antt =====
-- Concrete runs of the modelled code, a module for each part.
mod States
mod Continuous
mod Tmgr
mod Waitpool
mod Components
mod Api
mod Raptor
mod Torus
mod Pull
mod Ordered
mod Pilots
mod Early
