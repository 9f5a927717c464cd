-- ===== src/Agent.antt =====
-- The agent layer: the environment's interface, the agents, and the workload graph of agent_layer.
pub mod Environment
pub mod Exec
pub mod Verifier
pub mod Workload
pub mod System
