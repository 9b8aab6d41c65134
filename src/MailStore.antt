-- ===== src/MailStore.antt =====
-- The stored mailbox of a resource: internal/serve/resource_mailbox_store.go.
pub mod Maps
pub mod Members
pub mod Mapped
pub mod Entries
pub mod Receipts
pub mod Outbox
pub mod Schema
pub mod Hot
pub mod Documents
pub mod Load
pub mod Kept
pub mod Merged
pub mod Reloaded
pub mod Bounded
pub mod Sources
pub mod Joined
mod Tests
pub mod Disk
pub mod Commit
pub mod Runs
pub mod Atomic
pub mod Recovery
pub mod Finished
