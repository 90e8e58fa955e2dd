-- ===== src/Tests.antt =====
-- Tests: a concrete world, and the theorems applied in it.
pub mod World
pub mod Conditions
pub mod Passes
pub mod Steps
pub mod Values
pub mod Parsers
pub mod Probe
pub mod Compare
pub mod Scope
pub mod Pgcopydb
pub mod Sampler
