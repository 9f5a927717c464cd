-- ===== src/Risk.antt =====
-- The risk heuristic: the modules of rules_engine/risk.
pub mod Rules
pub mod Scorer
