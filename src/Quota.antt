-- ===== src/Quota.antt =====
-- quota.go and swift_quota.go: daily request and index byte quotas.
pub mod Request
pub mod IndexBytes
pub mod Limits
pub mod Organization
pub mod Checks
pub mod Swift
