-- ===== src/Context.antt =====
-- context_layer: what is known of the services of a namespace.
pub mod Models
pub mod Discovery
pub mod Indexer
