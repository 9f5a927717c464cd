-- ===== src/Event/Worker/Returns/Settling.antt =====
-- The ways in which `OptimizationWorker.process` of event_layer/worker.py settles a message return.
use kuber.Base.{
  pair_eq, ◌≡◌, refl, sym, inl, inr, ◌+◌, ltb, ℕ, String, true, false, some, List, [], ◌∷◌, ◌==◌,
  string_eq, Bool-cases,
}
use kuber.Base.Text.{concat}
use kuber.Base.Dict.{get}
use kuber.Base.Result.{Result, Error, ok, raise, Result-cases, raise≢ok}
use kuber.Agent.Exec.{Post}
use kuber.Agent.Workload.Run.{run}
use kuber.Event.Contracts.{EventEnvelope, Fields, validated, next_attempt}
use kuber.Event.Topic
use kuber.Event.Bus.{Bus, ConsumedEvent, PublishedEvent, publish, placed}
use kuber.Event.Bus.Settle.{acknowledge, retry, dead_letter}
use kuber.Event.Worker.{WorkerWorld, WorkerConfig, error_name, error_text, handle, Task}
use kuber.Event.Worker.Process.{
  required, completion, result_payload, run_graph, restore_environment, finish, attempt, recover,
  repeat_result, reject,
}

-- The bus is open and has the queue that the message came from.
pub record IsReady (message : ConsumedEvent) (bus : Bus) : Type 0 where
  pub is_open : bus.closed ≡ false
  pub queue : List ConsumedEvent
  pub queued : get (message.topic, message.consumer_group) bus.queues ≡ some queue

-- The message has a key, its event is one that the contract lets be made, and `uuid4` gives no
-- empty identity.
pub record IsSound {E : Type 0} (config : WorkerConfig E) (message : ConsumedEvent) : Type 0 where
  pub keyed : (message.key == "") ≡ false
  pub valid : validated message.event ≡ ok message.event
  pub named : (n : ℕ) → (config.supply.uuid n == "") ≡ false

-- What `__post_init__` has tested.
pub record IsTested (e : EventEnvelope) : Type 0 where
  run_named : (e.run_id == "") ≡ false
  correlation_named : (e.correlation_id == "") ≡ false
  versioned : (e.schema_version == "1") ≡ true
  version_named : (e.schema_version == "") ≡ false

pub tested : (e : EventEnvelope) → validated e ≡ ok e → IsTested e
unfolding validated
tested e h = elim (Bool-cases (e.event_id == "")) [
  | inl a ↦ absurd (raise≢ok (rw a at h))
  | inr a ↦ elim (Bool-cases (e.run_id == "")) [
    | inl b ↦ absurd (raise≢ok (rw (a, b) at h))
    | inr b ↦ elim (Bool-cases (e.correlation_id == "")) [
      | inl c ↦ absurd (raise≢ok (rw (a, b, c) at h))
      | inr c ↦ elim (Bool-cases (e.schema_version == "")) [
        | inl d ↦ absurd (raise≢ok (rw (a, b, c, d) at h))
        | inr d ↦ elim (Bool-cases (e.schema_version == "1")) [
          | inl f ↦ record {
            run_named = b;
            correlation_named = c;
            versioned = f;
            version_named = d;
          }
          | inr f ↦ absurd (raise≢ok (rw (a, b, c, d, f) at h))
        ]
      ]
    ]
  ]
]

module _ {E : Type 0} (config : WorkerConfig E) (message : ConsumedEvent)
    (sound : IsSound config message) where
  pub completion-returns :
      (payload : Fields) (bus : Bus)
      → (result : EventEnvelope) × ((completion config message.event payload bus).0 ≡ ok result)
  unfolding completion validated
  completion-returns payload bus =
      let t = tested message.event sound.valid in
      elim (Result-cases (completion config message.event payload bus).0) [
        | inl returned ↦ returned
        | inr (e, raised) ↦ absurd (
            raise≢ok
              (sym (rw (sound.named bus.issued, t.run_named, t.correlation_named) at raised)))
      ]

  pub completion-IsReady :
      (payload : Fields) (bus : Bus)
      → IsReady message bus
      → IsReady message (completion config message.event payload bus).1
  unfolding completion
  completion-IsReady payload bus ready = record {
    is_open = ready.is_open;
    queue = ready.queue;
    queued = ready.queued;
  }

  pub publish-returns :
      (topic : String) (event : EventEnvelope) (bus : Bus)
      → IsReady message bus
      → (publish topic event message.key bus).0 ≡ ok (placed bus topic event message.key)
  unfolding publish
  publish-returns topic event bus ready = rw (sound.keyed, ready.is_open) refl

  pub retry-returns :
      (reason : String) (bus : Bus)
      → (reason == "") ≡ false
      → IsReady message bus
      → (retry config.supply message reason bus).0 ≡ ok tt
  unfolding retry next_attempt validated
  retry-returns reason bus named ready =
      let t = tested message.event sound.valid in
      rw
        (
          named,
          ready.queued,
          sound.named bus.issued,
          t.run_named,
          t.correlation_named,
          t.version_named,
          t.versioned,
        )
        refl

  pub dead_letter-returns :
      (reason : String) (bus : Bus)
      → IsReady message bus
      → (published : PublishedEvent) × ((dead_letter config.supply message reason bus).0
          ≡ ok published)
  unfolding dead_letter validated publish acknowledge
  dead_letter-returns reason bus ready =
      let t = tested message.event sound.valid in
      elim (Result-cases (dead_letter config.supply message reason bus).0) [
        | inl returned ↦ returned
        | inr (e, raised) ↦ absurd (
            raise≢ok (
              sym (
                rw
                  (
                    sound.named bus.issued,
                    t.run_named,
                    t.correlation_named,
                    sound.keyed,
                    ready.is_open,
                  )
                  at raised)))
      ]

  pub finish-returns :
      (task_id : String) (payload : Fields) (w : WorkerWorld E)
      → IsReady message w.bus
      → (finish config message task_id payload w).0 ≡ ok tt
  unfolding finish acknowledge
  finish-returns task_id payload w ready =
      let (result, made) = completion-returns payload w.bus in
      let sent =
        publish-returns Topic.optimization_results result
          (completion config message.event payload w.bus).1
          (completion-IsReady payload w.bus ready) in
      rw (made, sent) refl

  pub repeat_result-returns :
      (payload : Fields) (w : WorkerWorld E)
      → IsReady message w.bus
      → (repeat_result config message payload w).0 ≡ ok tt
  unfolding repeat_result acknowledge
  repeat_result-returns payload w ready =
      let (result, made) = completion-returns payload w.bus in
      let sent =
        publish-returns Topic.optimization_results result
          (completion config message.event payload w.bus).1
          (completion-IsReady payload w.bus ready) in
      rw (made, sent) refl

  -- An attempt that raises leaves the bus ready: it had not come to the end.
  pub attempt-IsReady :
      (task : Task) (key : String) (w : WorkerWorld E)
      → IsReady message w.bus
      → Post (λ u v. Unit {0}) (λ v. IsReady message v.bus) (attempt config message task key w)
  unfolding attempt run_graph
  attempt-IsReady task key w ready = elim (Result-cases (config.acquire key)) [
    | inr (x, refused) ↦ rw refused ready
    | inl (u, acquired) ↦ elim (Result-cases (config.create message.event task.context)) [
      | inr (x, refused) ↦ rw (acquired, refused) ready
      | inl (environment, created) ↦
          elim (Result-cases (required config message.event "repository_ref")) [
            | inr (x, missing) ↦ rw (acquired, created, missing) ready
            | inl (repository_ref, found) ↦
                elim (Result-cases
                  (run config.graph config.recursion_limit message.event.run_id (some task.task_id)
                    (some task.workload_id) task.context.context_ref repository_ref
                    environment).0) [
                      | inr (x, failed) ↦ rw (acquired, created, found, failed) ready
                      | inl (execution, ran) ↦
                          rw (acquired, created, found, ran)
                            (returned _ (
                              finish-returns task.task_id (result_payload config task execution) _
                                ready))
                    ]
          ]
    ]
  ]
    where
      returned :
          (r : Result (Unit {0}) × WorkerWorld E)
          → r.0 ≡ ok tt
          → Post (λ u v. Unit {0}) (λ v. IsReady message v.bus) r
      returned (ok u, v) h = tt
      returned (raise e, v) h = absurd (raise≢ok h)

  pub recover-returns :
      (error : Error) (w : WorkerWorld E)
      → (error_name error == "") ≡ false
      → IsReady message w.bus
      → (recover config message error w).0 ≡ ok tt
  unfolding recover restore_environment
  recover-returns error w named ready =
      let (published, dead) =
        dead_letter-returns (concat (error_name error ∷ ": " ∷ error_text error ∷ [])) w.bus
          ready in
      elim (Bool-cases (ltb (message.event.attempt + 1) config.max_delivery_attempts)) [
        | inl again ↦ rw (again, retry-returns (error_name error) w.bus named ready) refl
        | inr last ↦ rw (last, dead) refl
      ]

  pub reject-returns :
      (error : Error) (w : WorkerWorld E)
      → IsReady message w.bus
      → (reject config message error w).0 ≡ ok tt
  unfolding reject
  reject-returns error w ready =
      let (published, dead) =
        dead_letter-returns (concat ("invalid task: " ∷ error_text error ∷ [])) w.bus ready in
      rw dead refl

  -- The worker answers what is raised.
  pub handled-returns :
      (r : Result (Unit {0}) × WorkerWorld E)
      → Post (λ u v. Unit {0}) (λ v. IsReady message v.bus) r
      → ((e : Error) → r.0 ≡ raise e → (error_name e == "") ≡ false)
      → (handle (recover config message) r).0 ≡ ok tt
  handled-returns (ok u, v) h named = refl
  handled-returns (raise e, v) ready named = recover-returns e v (named e refl) ready
