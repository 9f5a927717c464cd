-- ===== src/Event/Worker/Settles.antt =====
-- The worker settles the messages that it processes, by steps of the bus.
use kuber.Base.{
  ◌+◌, ltb, String, some, List, [], ◌∷◌, string_eq, ◌≡◌, inl, inr, ◌++◌, Bool-cases, Option-cases,
}
use kuber.Base.Text.{concat}
use kuber.Base.Dict.{get}
use kuber.Base.Result.{
  Result, Error, ok, raise, value_error, key_error, runtime_error, safety_error, type_error,
  assertion_error, recursion_limit_reached, timeout_error, stop_iteration, dry_run_error,
  other_error, Result-cases,
}
use kuber.Agent.Exec.{Exec, pure, ◌>>◌, Post, Post-returned}
use kuber.Agent.Workload.Run.{run}
use kuber.Event.Contracts.{EventEnvelope, Fields}
use kuber.Event.Topic
use kuber.Event.Bus.{Bus, ConsumedEvent, publish}
use kuber.Event.Bus.Settle.{acknowledge, retry, dead_letter}
use kuber.Event.Locks.{workload_lock_key}
use kuber.Event.Bus.Reach.Steps.{
  Reaches, here, then_step, publishes, issues, acknowledges, retries, dead_letters,
}
use kuber.Event.Worker.{WorkerWorld, WorkerConfig, error_name, error_text, handle, Task}
use kuber.Event.Worker.Process.{
  on_bus, required, validate, completion, result_payload, run_graph, finish, attempt,
  restore_environment, recover, repeat_result, work_on, reject, dispatch, process,
}

module _ {E : Type 0} (config : WorkerConfig E) (start : Bus) (message : ConsumedEvent)
    (before after : List ConsumedEvent) where
  -- The message is still claimed.
  abbrev Open : Bus → Type 0
  Open bus =
      Reaches config.supply (start, before ++ message ∷ after) (bus, before ++ message ∷ after)

  abbrev Settled : Bus → Type 0
  Settled bus = Reaches config.supply (start, before ++ message ∷ after) (bus, before ++ after)

  -- A return settles the message; an exception leaves it claimed.
  abbrev Settles : Result (Unit {0}) × WorkerWorld E → Type 0
  Settles = Post (λ _ w. Settled w.bus) (λ w. Open w.bus)

  publish-Open :
      (topic : String) (event : EventEnvelope) (key : String) (bus : Bus)
      → Open bus
      → Open (publish topic event key bus).1
  publish-Open topic event key bus reached =
      then_step _ _ _ reached (publishes topic event key bus (before ++ message ∷ after))

  completion-Open :
      (event : EventEnvelope) (payload : Fields) (bus : Bus)
      → Open bus
      → Open (completion config event payload bus).1
  unfolding completion
  completion-Open event payload bus reached =
      then_step _ _ _ reached (issues bus (before ++ message ∷ after))

  acknowledge-Settled : (bus : Bus) → Open bus → Settled (acknowledge message bus).1
  acknowledge-Settled bus reached = then_step _ _ _ reached (acknowledges message bus before after)

  -- A result that is published and then acknowledged.
  abbrev answer : EventEnvelope → Exec Bus (Unit {0})
  answer result = do publish Topic.optimization_results result message.key; acknowledge message

  answer-Settles :
      (result : EventEnvelope) (bus : Bus)
      → Open bus
      → Post (λ _ b. Settled b) Open (answer result bus)
  unfolding acknowledge
  answer-Settles result bus reached =
      let sent = publish-Open Topic.optimization_results result message.key bus reached in
      elim (Result-cases (publish Topic.optimization_results result message.key bus).0) [
        | inl (p, is) ↦ rw is (acknowledge-Settled _ sent)
        | inr (x, is) ↦ rw is sent
      ]

  -- A return settles the message; nothing is said of an exception.
  abbrev Returns : Result (Unit {0}) × WorkerWorld E → Type 0
  Returns = Post (λ _ w. Settled w.bus) (λ w. Unit {0})

  retry-Returns :
      (reason : String) (w : WorkerWorld E)
      → Open w.bus
      → Returns (on_bus config (retry config.supply message reason) w)
  retry-Returns reason w reached =
      elim (Result-cases (retry config.supply message reason w.bus).0) [
        | inl (u, is) ↦
            rw is (then_step _ _ _ reached (retries message reason w.bus before after is))
        | inr (x, is) ↦ rw is tt
      ]

  dead_letter-Returns :
      (reason : String) (w : WorkerWorld E)
      → Open w.bus
      → Returns ((on_bus config (dead_letter config.supply message reason) >> pure tt) w)
  dead_letter-Returns reason w reached =
      elim (Result-cases (dead_letter config.supply message reason w.bus).0) [
        | inl (p, is) ↦
            rw is (then_step _ _ _ reached (dead_letters message reason p w.bus before after is))
        | inr (x, is) ↦ rw is tt
      ]

  recover-Returns :
      (error : Error) (w : WorkerWorld E) → Open w.bus → Returns (recover config message error w)
  unfolding recover restore_environment
  recover-Returns error w reached =
      elim (Bool-cases (ltb (message.event.attempt + 1) config.max_delivery_attempts)) [
        | inl again ↦ rw again (retry-Returns (error_name error) _ reached)
        | inr last ↦ rw last (
            dead_letter-Returns (concat (error_name error ∷ ": " ∷ error_text error ∷ [])) _
              reached)
      ]

  reject-Returns :
      (error : Error) (w : WorkerWorld E) → Open w.bus → Returns (reject config message error w)
  unfolding reject
  reject-Returns error w reached =
      dead_letter-Returns (concat ("invalid task: " ∷ error_text error ∷ [])) _ reached

  repeat_result-Returns :
      (payload : Fields) (w : WorkerWorld E)
      → Open w.bus
      → Returns (repeat_result config message payload w)
  unfolding repeat_result acknowledge
  repeat_result-Returns payload w reached =
      let issued = completion-Open message.event payload w.bus reached in
      elim (Result-cases (completion config message.event payload w.bus).0) [
        | inl (result, is) ↦
            let sent = publish-Open Topic.optimization_results result message.key _ issued in
            elim (Result-cases
              (publish Topic.optimization_results result message.key
                (completion config message.event payload w.bus).1).0) [
                  | inl (p, published) ↦ rw (is, published) (acknowledge-Settled _ sent)
                  | inr (x, refused) ↦ rw (is, refused) tt
                ]
        | inr (x, is) ↦ rw is tt
      ]

  finish-Settles :
      (task_id : String) (payload : Fields) (w : WorkerWorld E)
      → Open w.bus
      → Settles (finish config message task_id payload w)
  unfolding finish acknowledge
  finish-Settles task_id payload w reached =
      let issued = completion-Open message.event payload w.bus reached in
      elim (Result-cases (completion config message.event payload w.bus).0) [
        | inl (result, is) ↦
            let sent = publish-Open Topic.optimization_results result message.key _ issued in
            elim (Result-cases
              (publish Topic.optimization_results result message.key
                (completion config message.event payload w.bus).1).0) [
                  | inl (p, published) ↦ rw (is, published) (acknowledge-Settled _ sent)
                  | inr (x, refused) ↦ rw (is, refused) sent
                ]
        | inr (x, is) ↦ rw is issued
      ]

  attempt-Settles :
      (task : Task) (key : String) (w : WorkerWorld E)
      → Open w.bus
      → Settles (attempt config message task key w)
  unfolding attempt run_graph
  attempt-Settles task key w reached = elim (Result-cases (config.acquire key)) [
    | inr (x, refused) ↦ rw refused reached
    | inl (u, acquired) ↦ elim (Result-cases (config.create message.event task.context)) [
      | inr (x, refused) ↦ rw (acquired, refused) reached
      | inl (environment, created) ↦
          elim (Result-cases (required config message.event "repository_ref")) [
            | inr (x, missing) ↦ rw (acquired, created, missing) reached
            | inl (repository_ref, found) ↦
                elim (Result-cases
                  (run config.graph config.recursion_limit message.event.run_id (some task.task_id)
                    (some task.workload_id) task.context.context_ref repository_ref
                    environment).0) [
                      | inr (x, failed) ↦ rw (acquired, created, found, failed) reached
                      | inl (execution, ran) ↦
                          rw (acquired, created, found, ran)
                            (finish-Settles task.task_id (result_payload config task execution) _
                              reached)
                    ]
          ]
    ]
  ]

  handled-Returns :
      (r : Result (Unit {0}) × WorkerWorld E)
      → Settles r
      → Returns (handle (recover config message) r)
  handled-Returns (ok u, w) settled = settled
  handled-Returns (raise e, w) still = recover-Returns e w still

  work_on-Returns :
      (task : Task) (w : WorkerWorld E) → Open w.bus → Returns (work_on config message task w)
  unfolding work_on
  work_on-Returns task w reached =
      elim (Result-cases (workload_lock_key config.cluster task.namespace task.workload_id)) [
        | inl (key, made) ↦ rw made (handled-Returns _ (attempt-Settles task key _ reached))
        | inr (x, bad) ↦ rw bad tt
      ]

  dispatch-Returns :
      (r : Result Task) (w : WorkerWorld E) → Open w.bus → Returns (dispatch config message r w)
  unfolding dispatch
  dispatch-Returns (ok task) w reached = elim (Option-cases (get task.task_id w.results)) [
    | inl new ↦ rw new (work_on-Returns task w reached)
    | inr (payload, known) ↦ rw known (repeat_result-Returns payload w reached)
  ]
  dispatch-Returns (raise (value_error m)) w reached = reject-Returns (value_error m) w reached
  dispatch-Returns (raise (key_error name)) w reached = reject-Returns (key_error name) w reached
  dispatch-Returns (raise (runtime_error m)) w reached = tt
  dispatch-Returns (raise (safety_error m)) w reached = tt
  dispatch-Returns (raise (type_error m)) w reached = tt
  dispatch-Returns (raise assertion_error) w reached = tt
  dispatch-Returns (raise recursion_limit_reached) w reached = tt
  dispatch-Returns (raise timeout_error) w reached = tt
  dispatch-Returns (raise stop_iteration) w reached = tt
  dispatch-Returns (raise (dry_run_error m)) w reached = tt
  dispatch-Returns (raise (other_error name m)) w reached = tt

  process-Returns : (w : WorkerWorld E) → Open w.bus → Returns (process config message w)
  unfolding process
  process-Returns w reached = dispatch-Returns (validate config message.event _).0 _ reached

-- A worker that processes a claimed message and returns has settled it by steps of the bus: the
-- message is acknowledged, on its queue again, or moved to the dead letters, and no other
-- claimed message is touched.
pub process-settles :
    {E : Type 0} (config : WorkerConfig E) (message : ConsumedEvent)
    (before after : List ConsumedEvent) (w : WorkerWorld E)
    → (process config message w).0 ≡ ok tt
    → Reaches config.supply
        (w.bus, before ++ message ∷ after)
        ((process config message w).1.bus, before ++ after)
process-settles config message before after w returns =
    Post-returned
      (λ _ v. Reaches config.supply (w.bus, before ++ message ∷ after) (v.bus, before ++ after))
      (λ v. Unit {0}) (process config message w)
      (process-Returns config w.bus message before after w (here _)) returns
