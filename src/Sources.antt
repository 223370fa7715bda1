-- ===== src/Sources.antt =====
-- apps/api/src/sources.rs: what a client may name as a source, and the registry of an organisation.
pub mod Types
pub mod Request
pub mod Registry
pub mod Locations
