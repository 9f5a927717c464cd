-- ===== src/Agent/System/Run.antt =====
-- What a run of the system graph of agent_layer/graphs/system.py ends with.
mod Frames
use kuber.Base.{ℕ, String, ◌≡◌, ◌↔◌, ◌∙◌, string_eq, sym, ap, subst, Bool, true, Option, some, List}
use kuber.Base.Lists.{length}
use kuber.Base.Result.{ok, ok-injective}
use kuber.Agent.Exec.{bind_inv}
use kuber.Context.Models.{ServiceContext}
use kuber.Event.Contracts.{EventEnvelope, cause}
use kuber.Agent.System.{SystemGraphState}
use kuber.Agent.System.Completion.{wait_for_completion, verify_system, route_system}
use kuber.Agent.System.Waiting.{IsComplete, wait_for_completion_inv}
use kuber.Agent.System.Verdict.{IsSystemPassed, verify_system_inv}
use kuber.Agent.System.Report.{SystemRunResult, result_of}
use kuber.Agent.System.Graph.{
  GraphWorld, GraphParts, Final, start_state, discover_system, build_registry, index_contexts,
  aggregate, on_system, prepare, conclude, steps, run,
}
use kuber.Agent.System.Run.Frames.{
  Carries, dispatch_frame, discover_inv, carried, registry_Carries, index_Carries, aggregate_inv,
  last_node_inv,
}

-- What a run that returned promises.
pub record IsVerified {S : Type 0} (parts : GraphParts S) (namespace : String)
    (result : SystemRunResult) : Type 0 where
  pub discovered : parts.discover namespace ≡ ok result.services
  pub arrived : IsComplete result.run_id (length result.services) result.results
  pub decided :
      (result.system_passed ≡ true)
      ↔ IsSystemPassed (length result.services) result.results parts.config.system_verifier

module _ {S : Type 0} (parts : GraphParts S) where
  -- What the nodes up to the dispatch leave.
  prepare_inv :
      (state : SystemGraphState) (w : GraphWorld S) {after : SystemGraphState}
      → (prepare parts state w).0 ≡ ok after
      → (services : List ServiceContext) × (parts.discover state.namespace ≡ ok services)
        × Carries services state.run_id state.namespace after
        × (after.expected_results ≡ some (length services))
  unfolding prepare
  prepare_inv state w h =
      let n1 = discover_system parts state w in
      let (discovered, a, h1) = bind_inv n1.0 n1.1 _ h in
      let n2 = build_registry parts discovered n1.1 in
      let (registered, b, h2) = bind_inv n2.0 n2.1 _ h1 in
      let n3 = index_contexts parts registered n2.1 in
      let (indexed, c, d) = bind_inv n3.0 n3.1 _ h2 in
      let (services, found, first) = discover_inv parts state w a in
      let last = index_Carries parts (registry_Carries parts first n1.1 b) n2.1 c in
      let sent = dispatch_frame parts.config indexed n3.1.system services last.services_are d in
      (
        services,
        found,
        subst (Carries services state.run_id state.namespace) (sym sent)
            (carried parts last _ _ _ _ _),
        ap (λ x. x.expected_results) sent,
      )

  -- What a run that returned ends with, from the results on.
  record IsConcluded (run_id : String) (services : Option (List ServiceContext)) (expected : ℕ)
      (final : Final) : Type 0 where
    results : List EventEnvelope
    passed : Bool
    arrived : IsComplete run_id expected results
    decided : (passed ≡ true) ↔ IsSystemPassed expected results parts.config.system_verifier
    run_id_is : final.0.run_id ≡ run_id
    services_are : final.0.services ≡ services
    results_are : final.0.result_events ≡ some results
    passed_is : final.0.system_passed ≡ some passed

  conclude_inv :
      (state : SystemGraphState) (w : GraphWorld S) {final : Final} (expected : ℕ)
      → state.expected_results ≡ some expected
      → (conclude parts state w).0 ≡ ok final
      → IsConcluded state.run_id state.services expected final
  unfolding conclude
  conclude_inv state w expected count h =
      let n5 = on_system parts (wait_for_completion parts.config state) w in
      let (waited, a, h1) = bind_inv n5.0 n5.1 _ h in
      let n6 = aggregate parts waited n5.1 in
      let (aggregated, b, h2) = bind_inv n6.0 n6.1 _ h1 in
      let n7 = on_system parts (verify_system parts.config aggregated) n6.1 in
      let (verified, c, h3) = bind_inv n7.0 n7.1 _ h2 in
      let (name, r, h4) = bind_inv (route_system verified) n7.1 _ h3 in
      let (results, complete_results, came) =
        wait_for_completion_inv parts.config state w.system expected count a in
      let gathered : aggregated
          ≡ record state { result_events = some results; graph_node = "AGGREGATE_RESULTS" } =
        subst (λ (x : SystemGraphState). aggregated ≡ record x { graph_node = "AGGREGATE_RESULTS" })
          came (aggregate_inv parts waited n5.1 b) in
      let (passed, said, decides) =
        verify_system_inv parts.config aggregated n6.1.system expected results
          (ap (λ x. x.result_events) gathered) (ap (λ x. x.expected_results) gathered ∙ count) c in
      let ended = last_node_inv parts name verified n7.1 h4 in
      record {
        results = results;
        passed = passed;
        arrived = complete_results;
        decided = decides;
        run_id_is =
            ap (λ x. x.run_id) ended ∙ ap (λ x. x.run_id) said ∙ ap (λ x. x.run_id) gathered;
        services_are =
            ap (λ x. x.services) ended ∙ ap (λ x. x.services) said ∙ ap (λ x. x.services) gathered;
        results_are =
            ap (λ x. x.result_events) ended
            ∙ ap (λ x. x.result_events) said
            ∙ ap (λ x. x.result_events) gathered;
        passed_is = ap (λ x. x.system_passed) ended ∙ ap (λ x. x.system_passed) said;
      }

  result_of-IsVerified :
      (namespace : String) (services : List ServiceContext) (results : List EventEnvelope)
      (passed : Bool) (final : Final) {result : SystemRunResult}
      → parts.discover namespace ≡ ok services
      → IsComplete final.0.run_id (length services) results
      → (passed ≡ true) ↔ IsSystemPassed (length services) results parts.config.system_verifier
      → final.0.services ≡ some services
      → final.0.result_events ≡ some results
      → final.0.system_passed ≡ some passed
      → result_of final ≡ ok result
      → IsVerified parts namespace result
  unfolding result_of
  result_of-IsVerified namespace services results passed final found complete_results decides a b c
        h =
      subst (IsVerified parts namespace) (ok-injective (rw (a, b, c) at h))
        (record { discovered = found; arrived = complete_results; decided = decides })

  -- Where a run of the system graph returns: its services are those that the discovery found
  -- in the namespace, it has as many results as services, each result is of the run, and it
  -- says that the system passed exactly when each result says that its workload was accepted
  -- and the verifier of the whole system, where there is one, returns true.
  pub run-IsVerified :
      (uuid : String) (run_id : Option String) (namespace : String) (w : GraphWorld S)
      {result : SystemRunResult}
      → (run parts uuid run_id namespace w).0 ≡ ok result
      → IsVerified parts namespace result
  unfolding run
  run-IsVerified uuid run_id namespace w h =
      let begin = start_state (cause run_id uuid) namespace in
      let whole = steps parts begin w in
      let (final, all_steps, h1) = bind_inv whole.0 whole.1 _ h in
      let first = prepare parts begin w in
      let (ready, a, b) = bind_inv first.0 first.1 (conclude parts) all_steps in
      let (services, found, carries, count) = prepare_inv begin w a in
      let end = conclude_inv ready first.1 (length services) count b in
      result_of-IsVerified namespace services end.results end.passed final found
        (subst (λ id. IsComplete id (length services) end.results) (sym end.run_id_is) end.arrived)
        end.decided (end.services_are ∙ carries.services_are) end.results_are end.passed_is h1
