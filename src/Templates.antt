-- ===== src/Templates.antt =====
-- apps/api/src/rule_template_types.rs and apps/api/src/routes/templates.rs: rule templates, what is
-- checked of them, and the table of their versions.
pub mod Types
pub mod Shape
pub mod Refs
pub mod Validate
pub mod Rows
pub mod Table
