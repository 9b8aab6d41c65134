-- ===== src/Generation.antt =====
-- The generation lifecycle of a resource: internal/serve/generation_lifecycle.go.
pub mod Facts
pub mod Normal
pub mod Steps
pub mod Plan
pub mod Guard
pub mod Safety
pub mod Fresh
pub mod Ownership
pub mod OperationId
pub mod Legacy
pub mod Adapt
pub mod Adapted
mod Tests
