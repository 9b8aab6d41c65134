-- ===== src/Session.antt =====
-- The durable session log of AgentHub: agenthub/internal/session.
pub mod Types
pub mod Project
pub mod Merge
pub mod Store
pub mod Replay
pub mod Loads
pub mod Appends
pub mod Durable
pub mod Archives
pub mod Messages
pub mod Delivery
pub mod Receipts
pub mod Pages
pub mod Paging
pub mod PagingBack
mod Tests
