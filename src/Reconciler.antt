-- ===== src/Reconciler.antt =====
-- internal/control/reconciler/reconciler.go.
pub mod Model
pub mod Leases
pub mod Jobs
pub mod Passes
pub mod Lost
pub mod Evidence
pub mod Removals
pub mod Examples
