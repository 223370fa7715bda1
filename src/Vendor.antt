-- ===== src/Vendor.antt =====
-- apps/api/src/license_server.rs
pub mod Types
pub mod Guards
pub mod Store
pub mod Trial
pub mod Heartbeat
pub mod Service
pub mod Revocation
