-- ===== src/Schedules.antt =====
-- apps/api/src/routes/schedules.rs, and the schedules of apps/api/src/temporal.rs.
pub mod Handler
pub mod Spec
pub mod World
pub mod Steps
pub mod Create
pub mod Update
pub mod Switch
pub mod License
