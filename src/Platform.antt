-- ===== src/Platform.antt =====
-- What a pass of the reconciler works with (internal/controller/migration_controller.go): the
-- object in memory, the calls that it has made, and the answers of what is not this repository:
-- the Kubernetes API behind controller-runtime's client, the clock, the pod logs and the sampled
-- databases.
pub mod Types
pub mod Exec
