-- ===== src/Event/Worker.antt =====
-- event_layer/worker.py: the optimization worker, with the in-memory deduplication store of
-- deduplication.py. The processing time, which only reports read, is left out.
pub mod Process
pub mod Settles
pub mod Returns
pub mod Loop
use kuber.Base.{
  ℕ, suc, ◌+◌, ltb, String, Bool, true, false, not, ◌||◌, Option, none, some, List, [], ◌∷◌, ◌==◌,
  string_eq, contains, if◌then◌else◌,
}
use kuber.Base.Lists.{length, filter}
use kuber.Base.Text.{concat, show}
use kuber.Base.Dict.{Dict, get, put}
use kuber.Base.Result.{
  Result, Error, ok, raise, value_error, key_error, runtime_error, safety_error, type_error,
  assertion_error, recursion_limit_reached, timeout_error, stop_iteration, dry_run_error,
  other_error, map_ok,
}
use kuber.Models.Permission.{Permission}
use kuber.Models.Policy.{Policy}
use kuber.Rbac.Canonicalizer.{effective_permission_count, expand_policy}
use kuber.Agent.Exec.{Exec, pure, lift, item, ◌>>=◌, ◌>>◌}
use kuber.Agent.Workload.{GraphConfig}
use kuber.Agent.Workload.Run.{WorkloadExecution, run}
use kuber.Context.Models.{IndexedServiceContext}
use kuber.Event.Contracts.{
  EventType, workload_optimization_requested, workload_optimization_completed, EventEnvelope,
  type_name, Value, null, flag, number, text, object, Fields, field, no_fields, get_field,
  validated,
}
use kuber.Event.Topic
use kuber.Event.Bus.{Bus, ConsumedEvent, publish}
use kuber.Event.Bus.Settle.{Supply, fresh, acknowledge, retry, dead_letter}
use kuber.Event.Locks.{workload_lock_key}

pub record WorkerStats : Type 0 where
  pub claimed : ℕ
  pub completed : ℕ
  pub failed : ℕ
  pub retried : ℕ
  pub duplicates : ℕ

-- The bus, the worker's counters, the results that the deduplication store holds, and the
-- environment that the task at hand works on.
pub record WorkerWorld (E : Type 0) : Type 0 where
  pub bus : Bus
  pub stats : WorkerStats
  pub results : Dict String Fields
  pub environment : Option E

-- The worker's parts. The context store, the factory and the lock manager are behind protocols:
-- `find_context` is the store's `get`, taken not to raise, and `acquire` may raise where a lock is
-- not got in time. The release of the lock, at the end of the `async with`, is left out: with Redis
-- it may raise after the task is acknowledged. `repr` is Python's text of an object.
pub record WorkerConfig (E : Type 0) : Type 0 where
  pub worker_id : String
  pub cluster : String
  pub max_delivery_attempts : ℕ
  pub graph : GraphConfig E
  pub recursion_limit : ℕ
  pub supply : Supply
  pub find_context : String → Option IndexedServiceContext
  pub create : EventEnvelope → IndexedServiceContext → Result E
  pub acquire : String → Result (Unit {0})
  pub repr : Fields → String

-- `type(error).__name__`
abbrev pub error_name : Error → String
error_name (value_error message) = "ValueError"
error_name (key_error name) = "KeyError"
error_name (runtime_error message) = "RuntimeError"
error_name (safety_error message) = "SafetyError"
error_name (type_error message) = "TypeError"
error_name assertion_error = "AssertionError"
error_name recursion_limit_reached = "GraphRecursionError"
error_name timeout_error = "TimeoutError"
error_name stop_iteration = "StopAsyncIteration"
error_name (dry_run_error message) = "DryRunOnlyError"
error_name (other_error name message) = name

-- `str(error)`
abbrev pub error_text : Error → String
error_text (value_error message) = message
error_text (key_error name) = concat ("'" ∷ name ∷ "'" ∷ [])
error_text (runtime_error message) = message
error_text (safety_error message) = message
error_text (type_error message) = message
error_text assertion_error = ""
error_text recursion_limit_reached = "recursion limit reached"
error_text timeout_error = ""
error_text stop_iteration = ""
error_text (dry_run_error message) = message
error_text (other_error name message) = message

-- `str(value)`
abbrev pub str : (Fields → String) → Value → String
str repr null = "None"
str repr (flag true) = "True"
str repr (flag false) = "False"
str repr (number n) = show n
str repr (text s) = s
str repr (object fields) = repr fields

-- `try: m except Exception as error: handler(error)`
abbrev pub handle : {W A : Type 0} → (Error → Exec W A) → Result A × W → Result A × W
handle handler (ok a, w) = (ok a, w)
handle handler (raise e, w) = handler e w

-- What `_validate` finds.
pub record Task : Type 0 where
  pub task_id : String
  pub workload_id : String
  pub namespace : String
  pub context : IndexedServiceContext

-- The tests on the context.
abbrev pub with_context :
    String → String → String → String → Option IndexedServiceContext → Result Task
with_context task_id workload_id namespace context_ref none =
    raise (value_error (concat ("unknown context_ref " ∷ context_ref ∷ [])))
with_context task_id workload_id namespace context_ref (some context) =
    if not (context.service_id == workload_id)
    then raise (value_error "context belongs to a different workload")
    else ok (record {
      task_id = task_id;
      workload_id = workload_id;
      namespace = namespace;
      context = context;
    })

abbrev pub is_request : EventType → Bool
is_request kind = type_name kind == type_name workload_optimization_requested

-- A permission that `high_risk_permissions_remaining` counts.
abbrev pub is_high_risk : Permission → Bool
is_high_risk p =
    p.verb == "*"
    || p.resource == "*"
    || p.resource == "secrets"
    || contains ("create" ∷ "delete" ∷ []) p.verb

abbrev pub is_cluster_wide : Option String → Bool
is_cluster_wide none = true
is_cluster_wide (some namespace) = false
