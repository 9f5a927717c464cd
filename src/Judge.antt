-- ===== src/Judge.antt =====
-- judge_layer: the benchmark cases and the simulated environment.
pub mod Simulator
