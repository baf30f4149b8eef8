-- ===== src/Capacity.antt =====
-- internal/capacity: the disk and inode thresholds of a worker (policy.go), and the controller that
-- reclaims space before work is admitted (controller.go).
pub mod Policy
pub mod Controller
pub mod Bounds
pub mod Admission
pub mod Examples
