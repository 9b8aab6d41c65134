-- ===== src/Idle.antt =====
-- The sleep of a generation that is idle, of internal/serve/resource_idle.go.
pub mod Deadline
pub mod Retire
pub mod Settled
pub mod Projected
pub mod Due
pub mod Retired
pub mod Reconcile
pub mod Reconciled
mod Tests
