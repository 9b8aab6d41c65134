-- ===== src/Version.antt =====
-- Versions of the components and the order of their releases: internal/version/semver.go.
pub mod Parse
pub mod Compare
pub mod Order
pub mod Texts
pub mod Grammar
mod Tests
