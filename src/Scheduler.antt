-- ===== src/Scheduler.antt =====
-- The Scheduler's configuration: internal/app/scheduler.go.
pub mod Config
pub mod Operations
mod Results
mod Schedules
mod Valid
mod Kept
mod Settings
mod Tests
