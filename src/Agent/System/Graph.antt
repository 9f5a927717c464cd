-- ===== src/Agent/System/Graph.antt =====
-- agent_layer/graphs/system.py: the nodes around the tasks, the graph's edges and `run`.
use kuber.Base.{String, Option, none, some, List, [], ◌∷◌, ◌++◌, ◌==◌, string_eq, if◌then◌else◌}
use kuber.Base.Lists.{length}
use kuber.Base.Text.{concat}
use kuber.Base.Result.{Result, ok}
use kuber.Agent.Exec.{Exec, pure, lift, item, ◌>>=◌, ◌>>◌}
use kuber.Context.Models.{ServiceContext, IndexedServiceContext}
use kuber.Context.Indexer.{IndexerConfig, index}
use kuber.Base.Dict.{Dict, put}
use kuber.Event.Contracts.{Fields, cause}
use kuber.Agent.System.{SystemGraphState, SystemWorld, SystemConfig, record_action, dispatch}
use kuber.Agent.System.Report.{SystemRunResult, result_of, rows, report_text}
use kuber.Agent.System.Completion.{wait_for_completion, verify_system, route_system}

-- The bus and the actions, the services put in the registry, the indexer's store, and the reports
-- written.
pub record GraphWorld (S : Type 0) : Type 0 where
  pub system : SystemWorld
  pub registered : List ServiceContext
  pub store : S
  pub reports : Dict String String

-- The graph's other parts: the discovery, behind its protocol; what the registry's `put` answers;
-- the indexer; the directory of the reports; and Python's text of an object.
pub record GraphParts (S : Type 0) : Type 0 where
  pub config : SystemConfig
  pub discover : String → Result (List ServiceContext)
  pub put_answer : ServiceContext → Result (Unit {0})
  pub indexer : IndexerConfig S
  pub report_directory : Option String
  pub repr : Fields → String

-- What the last node leaves: the state and the path of the report.
abbrev pub Final : Type 0
Final = SystemGraphState × Option String

abbrev pub start_state : String → String → SystemGraphState
start_state run_id namespace = record {
  run_id = run_id;
  namespace = namespace;
  services = none;
  contexts = none;
  result_events = none;
  expected_results = none;
  system_passed = none;
  graph_node = "START";
}

module _ {S : Type 0} (parts : GraphParts S) where
  abbrev pub Action : Type 0 → Type 0
  Action = Exec (GraphWorld S)

  abbrev pub on_system : {A : Type 0} → Exec SystemWorld A → Action A
  on_system m w = let (r, system) = m w.system in (r, record w { system = system })

  abbrev pub on_store : {A : Type 0} → Exec S A → Action A
  on_store m w = let (r, store) = m w.store in (r, record w { store = store })

  -- `discover`
  unfoldable pub discover_system : SystemGraphState → Action SystemGraphState
  discover_system state = do
    services ← lift (parts.discover state.namespace)
    on_system (record_action "discover_system")
    pure (record state { services = some services; graph_node = "DISCOVER_SYSTEM" })

  -- `self.registry.put(service)`
  abbrev pub register : ServiceContext → Action (Unit {0})
  register service w =
      (parts.put_answer service, record w { registered = w.registered ++ service ∷ [] })

  unfoldable pub register_all : List ServiceContext → Action (Unit {0})
  register_all [] = pure tt
  register_all (service ∷ rest) = do register service; register_all rest

  unfoldable pub build_registry : SystemGraphState → Action SystemGraphState
  unfolding register_all
  build_registry state = do
    services ← lift (item "services" state.services)
    register_all services
    on_system (record_action "build_service_registry")
    pure (record state { graph_node = "BUILD_SERVICE_REGISTRY" })

  unfoldable pub index_all : List ServiceContext → Action (List IndexedServiceContext)
  index_all [] = pure []
  index_all (service ∷ rest) = do
    indexed ← on_store (index parts.indexer service)
    contexts ← index_all rest
    pure (indexed.context ∷ contexts)

  unfoldable pub index_contexts : SystemGraphState → Action SystemGraphState
  unfolding index_all
  index_contexts state = do
    services ← lift (item "services" state.services)
    contexts ← index_all services
    on_system (record_action "index_service_contexts")
    pure (record state { contexts = some contexts; graph_node = "INDEX_SERVICE_CONTEXTS" })

  unfoldable pub aggregate : SystemGraphState → Action SystemGraphState
  aggregate state = do
    on_system (record_action "aggregate_results")
    pure (record state { graph_node = "AGGREGATE_RESULTS" })

  abbrev pub save : String → String → Action (Unit {0})
  save path content w = (ok tt, record w { reports = put path content w.reports })

  -- `_write_report`
  unfoldable pub write_report : SystemGraphState → Action (Option String)
  unfolding rows
  write_report state = elim parts.report_directory [
    | none ↦ pure none
    | some directory ↦ do
      let path = concat (directory ∷ "/" ∷ state.run_id ∷ "-namespace-report.md" ∷ [])
      results ← lift (item "result_events" state.result_events)
      lines ← lift (rows parts.repr results)
      passed ← lift (item "system_passed" state.system_passed)
      services ← lift (item "services" state.services)
      save path (report_text state (length services) (length results) passed lines)
      pure (some path)
  ]

  -- `report`
  unfoldable pub report : SystemGraphState → Action Final
  unfolding write_report
  report state = do
    path ← write_report state
    on_system (record_action "system_report")
    pure (record state { graph_node = "SYSTEM_REPORT" }, path)

  unfoldable pub diagnose_system : SystemGraphState → Action Final
  diagnose_system state = do
    on_system (record_action "system_diagnosis")
    pure (record state { graph_node = "SYSTEM_DIAGNOSIS" }, none)

  -- The node that `route_system` names.
  abbrev pub last_node : String → SystemGraphState → Action Final
  last_node name state = if name == "system_report" then report state else diagnose_system state

  -- `_build`: the edges lead from each node to the next one, nine in all.
  unfoldable pub prepare : SystemGraphState → Action SystemGraphState
  prepare state = do
    discovered ← discover_system state
    registered ← build_registry discovered
    indexed ← index_contexts registered
    on_system (dispatch parts.config indexed)

  unfoldable pub conclude : SystemGraphState → Action Final
  conclude state = do
    waited ← on_system (wait_for_completion parts.config state)
    aggregated ← aggregate waited
    verified ← on_system (verify_system parts.config aggregated)
    name ← lift (route_system verified)
    last_node name verified

  abbrev pub steps : SystemGraphState → Action Final
  steps state = prepare state >>= conclude

  -- `run`; the identity is that of `uuid4` where none is given.
  unfoldable pub run : String → Option String → String → Action SystemRunResult
  run uuid run_id namespace = do
    final ← steps (start_state (cause run_id uuid) namespace)
    lift (result_of final)
