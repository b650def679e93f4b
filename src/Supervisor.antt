-- ===== src/Supervisor.antt =====
-- The runtime supervisor, internal/runtimesupervisor: it owns at most one runtime generation (the
-- execution API, the edge tunnel, the Temporal workers and the lifecycle client of one
-- configuration) and moves it through start, stop, restart, reconcile and failure.
pub mod Retry
pub mod State
pub mod Generation
pub mod Teardown
pub mod Act
pub mod Activation
pub mod Construction
pub mod Machine
pub mod Transitions
pub mod Restart
pub mod Apply
pub mod Invariant
pub mod Run
pub mod Promises
mod Tests
