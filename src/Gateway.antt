-- ===== src/Gateway.antt =====
-- The gateway: crates/aegis-gateway/src.
pub mod Admission
pub mod Egress
pub mod Fetch
pub mod Session
pub mod Server
pub mod Vfs
pub mod Shell
pub mod Geoip
