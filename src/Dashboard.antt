-- ===== src/Dashboard.antt =====
-- The dashboard: crates/aegis-dashboard/src.
pub mod Store
pub mod Access
pub mod Tail
pub mod Queries
