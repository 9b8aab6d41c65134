-- ===== src/Mailbox.antt =====
-- The mailbox of a resource: its messages, the choice of the next one and the operations on them, in
-- internal/serve/resource_mailbox.go.
pub mod Message
pub mod Select
pub mod Order
pub mod Generated
mod Tests
pub mod Operations
pub mod Settled
pub mod Cancelled
pub mod Replayed
pub mod Counts
pub mod Counted
pub mod Promote
pub mod Promotion
