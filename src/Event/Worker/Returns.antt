-- ===== src/Event/Worker/Returns.antt =====
-- `OptimizationWorker.process` of event_layer/worker.py returns: no claimed task is left behind.
mod Refusals
pub mod Settling
use kuber.Base.{
  pair_eq, ◌≡◌, ◌∙◌, ◌↔◌, refl, sym, subst, inl, inr, ◌+◌, ◌++◌, String, false, none, List, ◌∷◌,
  ◌==◌, string_eq, Option-cases,
}
use kuber.Base.Dict.{get}
use kuber.Base.Result.{
  Result, Error, ok, raise, value_error, key_error, Result-cases, raise≢ok, ok-injective,
}
use kuber.Event.Bus.{ConsumedEvent}
use kuber.Event.Bus.Reach.Steps.{Reaches}
use kuber.Event.Locks.{workload_lock_key, MakesKey, MakesKey-intro, workload_lock_key-eq-ok}
use kuber.Event.Worker.{WorkerWorld, WorkerConfig, error_name, Task}
use kuber.Event.Worker.Process.{validate, attempt, work_on, dispatch, process}
use kuber.Event.Worker.Settles.{process-settles}
use kuber.Event.Worker.Returns.Settling.{
  IsReady, IsSound, repeat_result-returns, attempt-IsReady, reject-returns, handled-returns,
}
use kuber.Event.Worker.Returns.Refusals.{Refuses, validate-Refuses, validate-same}

-- The key of a valid task's lock can be made.
abbrev pub HasKey : {E : Type 0} → WorkerConfig E → ConsumedEvent → Type 0
HasKey config message =
    (v : WorkerWorld _) (task : Task)
    → (validate config message.event v).0 ≡ ok task
    → (key : String) × (workload_lock_key config.cluster task.namespace task.workload_id ≡ ok key)

-- The class of an exception that an attempt raises has a name.
abbrev pub IsNamed : {E : Type 0} → WorkerConfig E → ConsumedEvent → Type 0
IsNamed config message =
    (task : Task) (key : String) (v : WorkerWorld _) (e : Error)
    → (attempt config message task key v).0 ≡ raise e
    → (error_name e == "") ≡ false

module _ {E : Type 0} (config : WorkerConfig E) (message : ConsumedEvent)
    (sound : IsSound config message) (named : IsNamed config message) where
  work_on-returns :
      (task : Task) (key : String) (w : WorkerWorld E)
      → workload_lock_key config.cluster task.namespace task.workload_id ≡ ok key
      → IsReady message w.bus
      → (work_on config message task w).0 ≡ ok tt
  unfolding work_on
  work_on-returns task key w made ready =
      let v : WorkerWorld E = record w { environment = none } in
      rw made (
        handled-returns config message sound (attempt config message task key v)
          (attempt-IsReady config message sound task key v ready) (named task key v))

  dispatch-returns :
      (r : Result Task) (w : WorkerWorld E)
      → Refuses r
      → ((task : Task)
          → r ≡ ok task
          → get task.task_id w.results ≡ none
          → (key : String) × (workload_lock_key config.cluster task.namespace task.workload_id
              ≡ ok key))
      → IsReady message w.bus
      → (dispatch config message r w).0 ≡ ok tt
  unfolding dispatch
  dispatch-returns (ok task) w refuses has_key ready =
      elim (Option-cases (get task.task_id w.results)) [
        | inl new ↦
            let (key, made) = has_key task refl new in
            rw new (work_on-returns task key w made ready)
        | inr (payload, known) ↦
            rw known (repeat_result-returns config message sound payload w ready)
      ]
  dispatch-returns (raise e) w refuses has_key ready = elim refuses [
    | inl (m, same) ↦ rw same (reject-returns config message sound (value_error m) w ready)
    | inr (name, same) ↦ rw same (reject-returns config message sound (key_error name) w ready)
  ]

-- No claimed task is left behind: where the message has a key, its event passes the test of the
-- envelope, no identity of uuid4 is empty, the bus is open and has the queue that the message
-- came from, the key of a valid task's lock can be made, and the class of an exception that an
-- attempt raises has a name: the worker returns, and has settled the message by steps of the
-- bus, which touch no other claimed message.
pub process-returns :
    {E : Type 0} (config : WorkerConfig E) (message : ConsumedEvent)
    (before after : List ConsumedEvent) (w : WorkerWorld E)
    → IsSound config message
    → IsReady message w.bus
    → HasKey config message
    → IsNamed config message
    → ((process config message w).0 ≡ ok tt)
      × Reaches config.supply
          (w.bus, before ++ message ∷ after)
          ((process config message w).1.bus, before ++ after)
unfolding process
process-returns {E} config message before after w sound ready has_key named =
    (returned, process-settles config message before after w returned)
  where
    returned : (process config message w).0 ≡ ok tt
    returned =
        let v : WorkerWorld E = record w {
          stats = record w.stats { claimed = w.stats.claimed + 1 };
        } in
        dispatch-returns config message sound named (validate config message.event v).0 v
          (validate-Refuses config message.event v) (λ task found _. has_key v task found) ready

-- The event is a task whose result is not known, so that the worker takes its lock.
pub record IsNewTask {E : Type 0} (config : WorkerConfig E) (message : ConsumedEvent)
    (w : WorkerWorld E) (task : Task) : Type 0 where
  pub found : (validate config message.event w).0 ≡ ok task
  pub unknown : get task.task_id w.results ≡ none

module _ {E : Type 0} (config : WorkerConfig E) (message : ConsumedEvent)
    (sound : IsSound config message) (named : IsNamed config message) where
  -- What is raised comes from the key, before anything is sent.
  dispatch-raises :
      (r : Result Task) (w : WorkerWorld E) (e : Error)
      → Refuses r
      → IsReady message w.bus
      → (dispatch config message r w).0 ≡ raise e
      → (dispatch config message r w).1.bus ≡ w.bus
  unfolding dispatch work_on
  dispatch-raises (raise x) w e refuses ready raised = absurd (
      raise≢ok (
        sym raised
        ∙ dispatch-returns config message sound named (raise x) w refuses
            (λ task same _. absurd (raise≢ok same)) ready))
  dispatch-raises (ok task) w e refuses ready raised =
      elim (Option-cases (get task.task_id w.results)) [
        | inr (payload, known) ↦ absurd (
            raise≢ok (
              sym (rw known at raised)
              ∙ repeat_result-returns config message sound payload w ready))
        | inl new ↦
            elim (Result-cases (workload_lock_key config.cluster task.namespace task.workload_id)) [
              | inr (x, refused) ↦ rw (new, refused) refl
              | inl (key, made) ↦ absurd (
                  raise≢ok (
                    sym raised
                    ∙ dispatch-returns config message sound named (ok task) w refuses
                        (λ t same _.
                          subst
                            (λ u.
                              (k : String) × (workload_lock_key config.cluster u.namespace
                                  u.workload_id
                                ≡ ok k))
                            (ok-injective same) (key, made))
                        ready))
            ]
      ]

-- Where the message has a key, its event passes the test of the envelope, no identity of uuid4
-- is empty, the bus is open and has the queue that the message came from, and the class of an
-- exception that an attempt raises has a name: the worker returns exactly when, if the event is
-- a valid task whose result is not known, the cluster, the namespace and the workload of the
-- task are not empty and have no colon; and where it raises, the bus is as it was, so that the
-- message is neither acknowledged, queued again nor dead-lettered.
pub process-returns_iff :
    {E : Type 0} (config : WorkerConfig E) (message : ConsumedEvent) (w : WorkerWorld E)
    → IsSound config message
    → IsReady message w.bus
    → IsNamed config message
    → (((process config message w).0 ≡ ok tt) ↔ (
        (task : Task)
        → IsNewTask config message w task
        → MakesKey config.cluster task.namespace task.workload_id))
      × ((e : Error)
          → (process config message w).0 ≡ raise e
          → (process config message w).1.bus ≡ w.bus)
unfolding process dispatch work_on
process-returns_iff {E} config message w sound ready named = (
  (
    λ returned task new.
        let found : (validate config message.event counted).0 ≡ ok task =
          validate-same config message.event counted w ∙ new.found in
        elim (Result-cases (workload_lock_key config.cluster task.namespace task.workload_id)) [
          | inl (key, made) ↦ MakesKey-intro config.cluster task.namespace task.workload_id key made
          | inr (e, refused) ↦ absurd (raise≢ok (rw (found, new.unknown, refused) at returned))
        ],
    λ parts.
        dispatch-returns config message sound named (validate config message.event counted).0
          counted (validate-Refuses config message.event counted)
          (λ task found unknown. (
            _,
            workload_lock_key-eq-ok config.cluster task.namespace task.workload_id (
                parts task (record {
                  found = validate-same config message.event w counted ∙ found;
                  unknown = unknown;
                })),
          ))
          ready,
  ),
  λ e raised.
      dispatch-raises config message sound named (validate config message.event counted).0 counted e
        (validate-Refuses config message.event counted) ready raised,
)
  where
    counted : WorkerWorld E
    counted = record w { stats = record w.stats { claimed = w.stats.claimed + 1 } }
