-- ===== src/Event.antt =====
-- event_layer: the events, the in-memory bus, the workload locks and the optimization worker.
pub mod Contracts
pub mod Topic
pub mod Bus
pub mod Locks
pub mod Worker
