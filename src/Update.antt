-- ===== src/Update.antt =====
-- Component updates: the signed manifest and the plan against the installed versions,
-- internal/update.
pub mod Manifest
pub mod Resolve
pub mod Validated
pub mod Managed
pub mod Selected
mod Tests
