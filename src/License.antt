-- ===== src/License.antt =====
-- apps/api/src/security/license.rs
pub mod Types
pub mod Signing
pub mod Heartbeat
pub mod Client
pub mod Persist
pub mod Email
pub mod Tick
pub mod Validity
pub mod Startup
