-- ===== src/Index.antt =====
-- The index subsystem: paths, manifests, operation leases and jobs.
pub mod Path
pub mod Manifest
pub mod Leases
pub mod Jobs
