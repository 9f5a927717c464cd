-- ===== src/Models.antt =====
-- The data model: the modules of rules_engine/models.
pub mod Event
pub mod Permission
pub mod Policy
pub mod Rbac
