-- ===== src/Tests.antt =====
-- Concrete runs: each theorem on an input where its conditions hold.
mod Rules
mod Cluster
mod Coordinator
mod Manifests
mod Benchmark
mod Events
