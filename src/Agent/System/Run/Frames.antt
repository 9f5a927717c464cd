-- ===== src/Agent/System/Run/Frames.antt =====
-- What the nodes of the system graph of agent_layer/graphs/system.py leave of its state.
use kuber.Base.{
  ℕ, String, ◌≡◌, ◌∙◌, inl, inr, Bool-cases, ◌==◌, string_eq, refl, sym, subst, Bool, Option, none,
  some, List,
}
use kuber.Base.Lists.{length}
use kuber.Base.Result.{Result, ok, ok-injective}
use kuber.Agent.Exec.{item, item_of, bind_inv}
use kuber.Context.Models.{ServiceContext}
use kuber.Event.Contracts.{EventEnvelope}
use kuber.Agent.System.{SystemGraphState, SystemWorld, SystemConfig, dispatch, dispatch_services}
use kuber.Agent.System.Graph.{
  GraphWorld, GraphParts, Final, discover_system, build_registry, register_all, index_all,
  index_contexts, aggregate, write_report, report, diagnose_system, last_node,
}

-- The services, the run and the namespace that the state is about.
pub record Carries (services : List ServiceContext) (run_id namespace : String)
    (state : SystemGraphState) : Type 0 where
  pub services_are : state.services ≡ some services
  pub run_id_is : state.run_id ≡ run_id
  pub namespace_is : state.namespace ≡ namespace

module _ (config : SystemConfig) (state : SystemGraphState) (w : SystemWorld)
    {after : SystemGraphState} where
  pub dispatch_frame :
      (services : List ServiceContext)
      → state.services ≡ some services
      → (dispatch config state w).0 ≡ ok after
      → after ≡ record state {
        expected_results = some (length services);
        graph_node = "DISPATCH_WORKLOAD_EVENTS";
      }
  unfolding dispatch
  dispatch_frame services known h =
      let (contexts, a, h1) = bind_inv (item "contexts" state.contexts) w _ h in
      let (found, b, h2) = bind_inv (item "services" state.services) w _ h1 in
      let sent = dispatch_services config state.run_id contexts found w in
      let (u, c, h3) = bind_inv sent.0 sent.1 _ h2 in
      subst
        (λ l. after ≡ record state {
          expected_results = some (length l);
          graph_node = "DISPATCH_WORKLOAD_EVENTS";
        })
        (ok-injective (sym b ∙ item_of "services" known)) (sym (ok-injective h3))

module _ {S : Type 0} (parts : GraphParts S) where
  pub discover_inv :
      (state : SystemGraphState) (w : GraphWorld S) {after : SystemGraphState}
      → (discover_system parts state w).0 ≡ ok after
      → (services : List ServiceContext) × (parts.discover state.namespace ≡ ok services)
        × Carries services state.run_id state.namespace after
  unfolding discover_system
  discover_inv state w h =
      let (services, found, h1) = bind_inv (parts.discover state.namespace) w _ h in
      (
        services,
        found,
        subst (Carries services state.run_id state.namespace) (ok-injective h1)
            (record { services_are = refl; run_id_is = refl; namespace_is = refl }),
      )

  module _ {services : List ServiceContext} {run_id namespace : String} {state : SystemGraphState}
      (carries : Carries services run_id namespace state) where
    pub carried :
        (contexts : Option _) (results : Option (List EventEnvelope)) (expected : Option ℕ)
        (passed : Option Bool) (node : String)
        → Carries services run_id namespace (record state {
          contexts = contexts;
          result_events = results;
          expected_results = expected;
          system_passed = passed;
          graph_node = node;
        })
    carried contexts results expected passed node = record {
      services_are = carries.services_are;
      run_id_is = carries.run_id_is;
      namespace_is = carries.namespace_is;
    }

    pub registry_Carries :
        (w : GraphWorld S) {after : SystemGraphState}
        → (build_registry parts state w).0 ≡ ok after
        → Carries services run_id namespace after
    unfolding build_registry
    registry_Carries w h =
        let (found, a, h1) = bind_inv (item "services" state.services) w _ h in
        let put = register_all parts found w in
        let (u, b, h2) = bind_inv put.0 put.1 _ h1 in
        subst (Carries services run_id namespace) (ok-injective h2) (carried _ _ _ _ _)

    pub index_Carries :
        (w : GraphWorld S) {after : SystemGraphState}
        → (index_contexts parts state w).0 ≡ ok after
        → Carries services run_id namespace after
    unfolding index_contexts
    index_Carries w h =
        let (found, a, h1) = bind_inv (item "services" state.services) w _ h in
        let indexed = index_all parts found w in
        let (contexts, b, h2) = bind_inv indexed.0 indexed.1 _ h1 in
        subst (Carries services run_id namespace) (ok-injective h2) (carried _ _ _ _ _)

  pub aggregate_inv :
      (state : SystemGraphState) (w : GraphWorld S) {after : SystemGraphState}
      → (aggregate parts state w).0 ≡ ok after
      → after ≡ record state { graph_node = "AGGREGATE_RESULTS" }
  unfolding aggregate
  aggregate_inv state w h = sym (ok-injective h)

  pub last_node_inv :
      (name : String) (state : SystemGraphState) (w : GraphWorld S) {final : Final}
      → (last_node parts name state w).0 ≡ ok final
      → final.0 ≡ record state { graph_node = final.0.graph_node }
  unfolding report diagnose_system
  last_node_inv name state w h = elim (Bool-cases (name == "system_report")) [
    | inl reports ↦
        let written = write_report parts state w in
        let (path, a, h1) = bind_inv written.0 written.1 _ (rw reports at h) in
        let same : ◌≡◌ {A = Result Final} (ok (record state { graph_node = "SYSTEM_REPORT" }, path))
            (ok _) =
          h1 in
        ends same
    | inr diagnoses ↦
        let same : ◌≡◌ {A = Result Final}
            (ok (record state { graph_node = "SYSTEM_DIAGNOSIS" }, none)) (ok _) =
          rw diagnoses at h in
        ends same
  ]
    where
      ends :
          {node : String} {path : Option String} {final : Final}
          → ◌≡◌ {A = Result Final} (ok (record state { graph_node = node }, path)) (ok final)
          → final.0 ≡ record state { graph_node = final.0.graph_node }
      ends same =
          subst (λ f. f.0 ≡ record state { graph_node = f.0.graph_node }) (ok-injective same) refl
