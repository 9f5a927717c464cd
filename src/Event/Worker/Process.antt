-- ===== src/Event/Worker/Process.antt =====
-- `OptimizationWorker.process`: one claimed message, from its validation to its settlement.
use kuber.Base.{
  ◌+◌, ltb, String, not, Option, none, some, [], ◌∷◌, string_eq, contains, if◌then◌else◌,
}
use kuber.Base.Lists.{length, filter}
use kuber.Base.Text.{concat}
use kuber.Base.Dict.{get, put}
use kuber.Base.Result.{Result, Error, ok, raise, value_error, key_error, map_ok}
use kuber.Rbac.Canonicalizer.{effective_permission_count, expand_policy}
use kuber.Agent.Exec.{Exec, pure, lift, item, ◌>>=◌, ◌>>◌}
use kuber.Agent.Workload.Run.{WorkloadExecution, run}
use kuber.Event.Contracts.{
  workload_optimization_completed, EventEnvelope, type_name, flag, number, text, Fields, field,
  no_fields, get_field, validated,
}
use kuber.Event.Topic
use kuber.Event.Bus.{Bus, ConsumedEvent, publish}
use kuber.Event.Bus.Settle.{fresh, acknowledge, retry, dead_letter}
use kuber.Event.Locks.{workload_lock_key}
use kuber.Event.Worker.{
  WorkerStats, WorkerWorld, WorkerConfig, error_name, error_text, str, handle, Task, with_context,
  is_request, is_high_risk, is_cluster_wide,
}

module _ {E : Type 0} (config : WorkerConfig E) where
  abbrev Worker : Type 0 → Type 0
  Worker A = Exec (WorkerWorld E) A

  abbrev pub on_bus : {A : Type 0} → Exec Bus A → Worker A
  on_bus m w = let (r, bus) = m w.bus in (r, record w { bus = bus })

  abbrev pub count : (WorkerStats → WorkerStats) → Worker (Unit {0})
  count update w = (ok tt, record w { stats = update w.stats })

  -- `event.payload[name]` as text.
  abbrev pub required : EventEnvelope → String → Result String
  required event name = map_ok (str config.repr) (item name (get_field name event.payload))

  -- `_validate`
  unfoldable pub validate : EventEnvelope → Worker Task
  validate event =
      if not (is_request event.event_type)
      then lift (
          raise (value_error (concat ("unexpected event type " ∷ type_name event.event_type ∷ []))))
      else (do
        task_id ← lift (required event "task_id")
        workload_id ← lift (required event "workload_id")
        namespace ← lift (required event "namespace")
        context_ref ← lift (required event "context_ref")
        if contains (task_id ∷ workload_id ∷ namespace ∷ context_ref ∷ []) ""
            then lift (raise (value_error "task identifiers must not be empty"))
            else lift (
                with_context task_id workload_id namespace context_ref
                  (config.find_context context_ref)))

  -- A completion that answers the event.
  unfoldable pub completion : EventEnvelope → Fields → Exec Bus EventEnvelope
  unfolding validated
  completion event payload = do
    (event_id, timestamp) ← fresh config.supply
    lift (
        validated (record {
          event_type = workload_optimization_completed;
          run_id = event.run_id;
          correlation_id = event.correlation_id;
          payload = payload;
          event_id = event_id;
          timestamp = timestamp;
          causation_id = some event.event_id;
          attempt = 0;
          schema_version = "1";
        }))

  -- `result_payload`
  unfoldable pub result_payload : Task → WorkloadExecution → Fields
  result_payload task execution = field "task_id" (text task.task_id) (
      field "workload_id" (text task.workload_id) (
        field "worker_id" (text config.worker_id) (
          field "accepted" (flag execution.accepted) (
            field "repairs" (number execution.repair_iterations) (
              field "original_risk" (number execution.original_risk.score) (
                field "final_risk" (number execution.final_risk.score) (
                  field "original_permissions"
                    (number (effective_permission_count execution.original_policy))
                    (field "final_permissions"
                      (number (effective_permission_count execution.final_policy))
                      (field "high_risk_permissions_remaining"
                        (number (length (filter is_high_risk execution.final_policy.permissions)))
                        (field "cluster_wide_grants_remaining"
                          (number (
                            length (
                              filter (λ p. is_cluster_wide p.namespace)
                                (expand_policy execution.final_policy).permissions)))
                          (field "incorrect_removals" (number execution.incorrect_removals) (
                            field "tests_passed" (number execution.verification.tests_passed) (
                              field "tests_total" (number execution.verification.tests_total)
                                no_fields)))))))))))))

  -- `self.graph.run`, on the environment that was created.
  unfoldable pub run_graph : EventEnvelope → Task → String → E → Worker WorkloadExecution
  run_graph event task repository_ref environment w =
      let (r, after) =
        run config.graph config.recursion_limit event.run_id (some task.task_id)
          (some task.workload_id) task.context.context_ref repository_ref environment in
      (r, record w { environment = some after })

  abbrev pub keep_environment : E → Worker (Unit {0})
  keep_environment environment w = (ok tt, record w { environment = some environment })

  abbrev pub store_result : String → Fields → Worker (Unit {0})
  store_result task_id payload w = (ok tt, record w { results = put task_id payload w.results })

  -- The end of the second `try`: the result is stored and published, then the task acknowledged.
  unfoldable pub finish : ConsumedEvent → String → Fields → Worker (Unit {0})
  unfolding completion
  finish message task_id payload = do
    result ← on_bus (completion message.event payload)
    store_result task_id payload
    on_bus (publish Topic.optimization_results result message.key)
    on_bus (acknowledge message)
    count (λ s. record s { completed = s.completed + 1 })

  -- The body of the second `try`.
  unfoldable pub attempt : ConsumedEvent → Task → String → Worker (Unit {0})
  unfolding finish
  attempt message task key = do
    lift (config.acquire key)
    environment ← lift (config.create message.event task.context)
    keep_environment environment
    repository_ref ← lift (required message.event "repository_ref")
    execution ← run_graph message.event task repository_ref environment
    finish message task.task_id (result_payload task execution)

  -- `with suppress(Exception): environment.restore_policy()`
  unfoldable pub restore_environment : Worker (Unit {0})
  restore_environment w = (ok tt, record w { environment = restored w.environment })
    where
      restored : Option E → Option E
      restored none = none
      restored (some environment) = some (config.graph.adapter.restore_policy environment).1

  -- The second `except`.
  unfoldable pub recover : ConsumedEvent → Error → Worker (Unit {0})
  unfolding restore_environment
  recover message error = do
    restore_environment
    if ltb (message.event.attempt + 1) config.max_delivery_attempts
        then (do
          count (λ s. record s { retried = s.retried + 1 })
          on_bus (retry config.supply message (error_name error)))
        else (do
          count (λ s. record s { failed = s.failed + 1 })
          on_bus (
              dead_letter config.supply message
                (concat (error_name error ∷ ": " ∷ error_text error ∷ [])))
          pure tt)

  -- A task whose result is known.
  unfoldable pub repeat_result : ConsumedEvent → Fields → Worker (Unit {0})
  unfolding completion
  repeat_result message payload = do
    count (λ s. record s { duplicates = s.duplicates + 1 })
    duplicate ← on_bus (completion message.event payload)
    on_bus (publish Topic.optimization_results duplicate message.key)
    on_bus (acknowledge message)

  -- A task that is new: its lock's key is made outside the `try`.
  unfoldable pub work_on : ConsumedEvent → Task → Worker (Unit {0})
  unfolding attempt recover
  work_on message task = do
    key ← lift (workload_lock_key config.cluster task.namespace task.workload_id)
    λ w. handle (recover message) (attempt message task key (record w { environment = none }))

  -- The first `except`, for an event that is no task.
  unfoldable pub reject : ConsumedEvent → Error → Worker (Unit {0})
  reject message error = do
    count (λ s. record s { failed = s.failed + 1 })
    on_bus (dead_letter config.supply message (concat ("invalid task: " ∷ error_text error ∷ [])))
    pure tt

  abbrev pub known_or_new : ConsumedEvent → Task → Option Fields → Worker (Unit {0})
  known_or_new message task none = work_on message task
  known_or_new message task (some payload) = repeat_result message payload

  -- What follows `_validate`.
  unfoldable pub dispatch : ConsumedEvent → Result Task → Worker (Unit {0})
  unfolding work_on repeat_result reject
  dispatch message (ok task) w = known_or_new message task (get task.task_id w.results) w
  dispatch message (raise (value_error m)) w = reject message (value_error m) w
  dispatch message (raise (key_error name)) w = reject message (key_error name) w
  dispatch message (raise e) w = (raise e, w)

  unfoldable pub process : ConsumedEvent → Worker (Unit {0})
  unfolding validate dispatch
  process message = do
    count (λ s. record s { claimed = s.claimed + 1 })
    λ w. dispatch message (validate message.event w).0 w
