-- ===== src/Event/Topic.antt =====
-- event_layer/topics.py: the topics that the modelled code uses, and the workers' consumer group.
use kuber.Base.{String}

abbrev pub optimization_requests : String
optimization_requests = "kuber.workload.optimization.requests"

abbrev pub optimization_results : String
optimization_results = "kuber.workload.optimization.results"

abbrev pub system_events : String
system_events = "kuber.system.events"

abbrev pub dlq : String
dlq = "kuber.dlq"

abbrev pub optimization_consumer_group : String
optimization_consumer_group = "kuber-optimization-workers"
