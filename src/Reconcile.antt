-- ===== src/Reconcile.antt =====
-- The reconciliation of a resource's mailbox with its generation and its AgentHub session:
-- reconcileResourceMailboxLocked of internal/serve/resource_mailbox.go.
pub mod Updates
pub mod World
pub mod Round
pub mod Deliver
pub mod Steps
pub mod Sound
pub mod Opened
pub mod Followed
pub mod Interrupted
pub mod Frozen
pub mod Answered
pub mod Delivered
pub mod Loop
pub mod Bounds
pub mod Rounds
mod Tests
