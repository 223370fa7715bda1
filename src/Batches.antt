-- ===== src/Batches.antt =====
-- apps/api/src/routes/batches.rs: the batches of an organisation and their stages. The handlers are in
-- the children.
pub mod Types
pub mod Listing
pub mod Create
