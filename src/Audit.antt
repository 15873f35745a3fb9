-- ===== src/Audit.antt =====
-- The timeline of audit: auspex-core/src/audit_timeline.rs.
pub mod Entry
pub mod Store
pub mod Growth
pub mod Snapshot
