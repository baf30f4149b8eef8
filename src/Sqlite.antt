-- ===== src/Sqlite.antt =====
-- internal/control/sqlite/store.go.
pub mod Tables
pub mod Jobs
pub mod Builds
pub mod Queue
pub mod Cleanup
pub mod History
pub mod Evolution
pub mod Advances
pub mod Oldest
pub mod Keys
pub mod Steps
pub mod Emergency
pub mod Safety
pub mod Admission
pub mod Idempotent
pub mod Blocked
pub mod Teardown
pub mod Retry
pub mod Rejected
pub mod Synced
pub mod Stale
pub mod Scheduled
pub mod Examples
pub mod EndExamples
pub mod Methods
