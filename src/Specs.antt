-- ===== src/Specs.antt =====
-- apps/api/src/routes/specs.rs: the reading of OpenAPI documents, and the check of the addresses that a
-- document is fetched from.
pub mod Address
pub mod Schema
pub mod Operations
