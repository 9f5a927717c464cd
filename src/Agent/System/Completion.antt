-- ===== src/Agent/System/Completion.antt =====
-- `wait_for_completion` and `verify_system`, with the route after them.
use kuber.Base.{
  ℕ, ltb, String, Bool, true, false, ◌&&◌, Option, none, some, List, [], ◌∷◌, ◌++◌, ◌==◌, string_eq,
  nat_eq, if◌then◌else◌,
}
use kuber.Base.Lists.{length, all}
use kuber.Base.Text.{concat}
use kuber.Base.Result.{Result, ok, raise, timeout_error, stop_iteration, map_ok}
use kuber.Agent.Exec.{Exec, pure, lift, item, ◌>>=◌, ◌>>◌}
use kuber.Event.Contracts.{
  system_verification_requested, system_verification_completed, EventEnvelope, flag, text, Fields,
  field, no_fields,
}
use kuber.Event.Topic
use kuber.Event.Bus.{Bus, ConsumedEvent, publish, consume}
use kuber.Event.Bus.Settle.{acknowledge}
use kuber.Agent.System.{
  SystemGraphState, SystemWorld, SystemConfig, is_accepted, on_bus, record_action, envelope,
}

abbrev pub coordinator : String
coordinator = "system-coordinator"

abbrev pub results_group : String → String
results_group run_id = concat ("kuber-system-" ∷ run_id ∷ [])

-- `if message.event.run_id == run_id: results.append(message.event)`
abbrev pub add_result : String → EventEnvelope → List EventEnvelope → List EventEnvelope
add_result run_id event results = if event.run_id == run_id then results ++ event ∷ [] else results

-- A read of the results: `others` act first, and where nothing is to claim the read waits on. To
-- subscribe once more changes nothing.
abbrev pub next_message : String → (Bus → Bus) → Exec Bus (Option ConsumedEvent)
next_message run_id others bus =
    let later = others bus in
    if later.closed
    then (raise stop_iteration, later)
    else consume Topic.optimization_results (results_group run_id) coordinator later

abbrev pub settle_result : Option ConsumedEvent → Exec Bus (Unit {0})
settle_result none = pure tt
settle_result (some message) = acknowledge message

abbrev pub with_message : String → Option ConsumedEvent → List EventEnvelope → List EventEnvelope
with_message run_id none results = results
with_message run_id (some message) results = add_result run_id message.event results

-- The loop over the messages, with what happens on the bus before each read.
unfoldable pub collect :
    ℕ → String → List (Bus → Bus) → List EventEnvelope → Exec Bus (List EventEnvelope)
unfolding consume
collect expected run_id [] results =
    if ltb (length results) expected then lift (raise timeout_error) else pure results
collect expected run_id (others ∷ rest) results =
    if ltb (length results) expected
    then (do
      message ← next_message run_id others
      settle_result message
      collect expected run_id rest (with_message run_id message results))
    else pure results

-- The two verdicts of `verify_system`.
abbrev pub workloads_passed : ℕ → List EventEnvelope → Bool
workloads_passed expected results = length results == expected && all is_accepted results

abbrev pub end_to_end : Bool → Option (Result Bool) → Result Bool
end_to_end false verifier = ok false
end_to_end true none = ok true
end_to_end true (some answer) = answer

abbrev pub verdict_payload : String → Bool → Bool → Fields
verdict_payload namespace workload_passed end_to_end_passed = field "namespace" (text namespace) (
    field "passed" (flag (workload_passed && end_to_end_passed)) (
      field "workload_verification_passed" (flag workload_passed)
        (field "end_to_end_passed" (flag end_to_end_passed) no_fields)))

module _ (config : SystemConfig) where
  unfoldable pub wait_for_completion : SystemGraphState → Exec SystemWorld SystemGraphState
  unfolding collect
  wait_for_completion state = do
    expected ← lift (item "expected_results" state.expected_results)
    results ← on_bus (collect expected state.run_id config.others [])
    record_action "wait_for_completion_events"
    pure (record state { result_events = some results; graph_node = "WAIT_FOR_COMPLETION_EVENTS" })

  unfoldable pub verify_system : SystemGraphState → Exec SystemWorld SystemGraphState
  unfolding envelope
  verify_system state = do
    requested ←
        envelope config system_verification_requested state.run_id none
          (field "namespace" (text state.namespace) no_fields)
    on_bus (
        publish Topic.system_events requested
          (concat (config.cluster ∷ ":" ∷ state.namespace ∷ [])))
    results ← lift (item "result_events" state.result_events)
    expected ← lift (item "expected_results" state.expected_results)
    end_to_end_passed ← lift (end_to_end (workloads_passed expected results) config.system_verifier)
    completed ←
        envelope config system_verification_completed state.run_id (some requested.event_id)
          (verdict_payload state.namespace (workloads_passed expected results) end_to_end_passed)
    on_bus (
        publish Topic.system_events completed
          (concat (config.cluster ∷ ":" ∷ state.namespace ∷ [])))
    record_action "system_verify"
    pure (record state {
      system_passed = some (workloads_passed expected results && end_to_end_passed);
      graph_node = "SYSTEM_VERIFY";
    })

-- `route_system`
abbrev pub route_system : SystemGraphState → Result String
route_system state =
    map_ok (λ passed. if passed then "system_report" else "system_diagnosis")
      (item "system_passed" state.system_passed)
