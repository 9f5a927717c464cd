-- ===== src/Rbac.antt =====
-- The RBAC engine: the modules of rules_engine/rbac.
pub mod Authorization
pub mod Canonicalizer
pub mod Resolver
pub mod Yaml
pub mod Parser
pub mod Generator
