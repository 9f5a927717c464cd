-- ===== src/Kubernetes.antt =====
-- kubernetes_runtime: the environment over a live cluster, and what it reads from a workload's logs.
pub mod Observation
pub mod Environment
