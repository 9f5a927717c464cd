-- ===== src/Lib.antt =====
-- A model of Kuber, which shrinks the RBAC permissions of Kubernetes workloads to what they use
-- and keeps a change only where a verification passes with it.
--
-- The parts and their files, by the paths of the repository:
-- rules_engine/models: Models. Calls, permissions, policies in normal form, RBAC objects.
-- rules_engine/rbac: Rbac. authorization.py in Rbac/Authorization (specified in Spec, laws in
--   Laws), canonicalizer.py in Rbac/Canonicalizer, resolver.py in Rbac/Resolver, the values of
--   YAML in Rbac/Yaml, parser.py in Rbac/Parser and generator.py in Rbac/Generator.
-- rules_engine/minimizer: Minimizer. reducer.py in Minimizer/Reducer, candidates.py in
--   Minimizer/Candidates.
-- rules_engine/risk: Risk.
-- agent_layer/interfaces/environment.py and verifier.py: Agent/Environment and Agent/Verifier.
-- agent_layer/graphs/workload.py and state.py: Agent/Workload. The node functions and routes of
--   _build are in Agent/Workload/Nodes, the edges, the graph's run and `run` in
--   Agent/Workload/Run. Contract states what an environment keeps to, Progress what holds before
--   each node, Outcome what a run ends with.
-- agent_layer/graphs/system.py: Agent/System has the dispatch of the tasks, Completion the wait
--   and the verdict, Report the report, and Graph the other nodes, the edges and `run`; Run is
--   what it ends with.
-- context_layer: Context. models.py, discovery.py and indexer.py in the modules of their names.
-- judge_layer/simulator: Judge/Simulator, an environment; a benchmark run is in
--   Judge/Simulator/Benchmark.
-- kubernetes_runtime: Kubernetes. adapter/kubernetes_environment.py in Kubernetes/Environment,
--   with the policies in Policies and the logs, the smoke test and the reset in Evidence;
--   adapter/factory.py in Factory; observation/event_collector.py in Kubernetes/Observation.
-- event_layer: Event. contracts.py in Event/Contracts, topics.py in Event/Topic, bus.py in
--   Event/Bus and Event/Bus/Settle, locks.py in Event/Locks, worker.py and deduplication.py in
--   Event/Worker.
-- Base and Texts have the shared helpers, Samples the test data, and Tests concrete runs.
--
-- State and errors. A function that may raise returns a Result; an operation that also changes
-- state is an Exec, which keeps the state where an exception leaves it. The system graph uses the
-- indexer and the bus, the worker the bus and the workload graph, the graph uses an environment
-- through the record EnvironmentAdapter, and the rules engine underneath is pure. A dict is an
-- association list in the order of insertion, and None is `none`.
--
-- Bounds. LangGraph's invoke is a loop with a step limit, which raises where a node is left to run
-- after it. The limit is a parameter: eleven steps and five for each allowed repair are enough,
-- since the nodes up to the first verification take seven steps, each repair leads through five,
-- and the end takes at most four more. The default limit of LangGraph is not part of this
-- repository.
--
-- Parameters. The text of a failure's explanation, the identities of uuid4 and the clock, the
-- context store, the file system that the indexer reads, its digest, the Kubernetes API and the
-- registry, the environment factory, the acquisition of a lock, Python's text of a dict, and for
-- the Kubernetes environment the record Host: what a command answers, the files, what PyYAML and
-- json.loads make of a text, and how often five seconds let the logs be read; for the coordinator
-- the answer of the system verifier and what others do to the bus before each of its reads, a list
-- whose end is the time limit.
--
-- Not modelled: an optional entry of a logged call that is neither a text nor null (its line is
-- passed over), measured times, the details that only reports read, the network, Kafka, Redis and
-- SQLite (so that a context store does not raise), the release of a workload's lock, which Redis may
-- refuse after the task is acknowledged, the text of YAML, the evaluation, the port forwards of the
-- Kubernetes runtime and the command line.
pub mod Agent
pub mod Base
pub mod Context
pub mod Event
pub mod Judge
pub mod Kubernetes
pub mod Minimizer
pub mod Models
pub mod Rbac
pub mod Risk
pub mod Samples
pub mod Tests
pub mod Texts
