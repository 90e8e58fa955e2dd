-- ===== src/Controller.antt =====
-- The Migration controller (internal/controller): one module for each part of a reconcile pass.
pub mod Jobs
pub mod Builder
pub mod Sampler
pub mod Status
pub mod Hold
pub mod Budget
pub mod Probe
pub mod Compare
pub mod Rehearsal
pub mod Gate
pub mod Reown
pub mod Verification
pub mod Finish
pub mod Attempt
pub mod Follow
pub mod Observe
pub mod Stop
pub mod Reconcile
pub mod Frame
pub mod Onward
pub mod Launch
pub mod WorkerLog
pub mod Scope
