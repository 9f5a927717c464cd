-- ===== src/Minimizer.antt =====
-- The policy minimiser: the modules of rules_engine/minimizer.
pub mod Reducer
pub mod Candidates
