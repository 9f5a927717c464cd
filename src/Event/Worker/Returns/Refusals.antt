-- ===== src/Event/Worker/Returns/Refusals.antt =====
-- The exceptions that `_validate` of event_layer/worker.py raises.
use kuber.Base.{
  pair_eq, ◌≡◌, refl, inl, inr, ◌⊎◌, String, Option, none, some, [], ◌∷◌, ◌==◌, string_eq, contains,
  Bool-cases, Option-cases,
}
use kuber.Base.Result.{Result, Error, ok, raise, value_error, key_error}
use kuber.Agent.Exec.{Exec, continue}
use kuber.Context.Models.{IndexedServiceContext}
use kuber.Event.Contracts.{EventEnvelope, get_field}
use kuber.Event.Worker.{WorkerWorld, WorkerConfig, with_context, is_request}
use kuber.Event.Worker.Process.{required, validate}

-- An exception that the first handler of `process` is for.
abbrev pub IsRefusal : Error → Type 0
IsRefusal e = ((m : String) × (e ≡ value_error m)) ⊎ ((name : String) × (e ≡ key_error name))

-- Whatever the computation raises is refused.
abbrev pub Refuses : {A : Type 0} → Result A → Type 0
Refuses (ok a) = Unit {0}
Refuses (raise e) = IsRefusal e

pub continue-Refuses :
    {W A B : Type 0} (r : Result A) (f : A → Exec W B) (w : W)
    → Refuses r
    → ((a : A) → Refuses (f a w).0)
    → Refuses (continue r f w).0
continue-Refuses (ok a) f w h k = k a
continue-Refuses (raise e) f w h k = h

pub with_context-Refuses :
    (task_id workload_id namespace context_ref : String) (context : Option IndexedServiceContext)
    → Refuses (with_context task_id workload_id namespace context_ref context)
with_context-Refuses task_id workload_id namespace context_ref none = inl (_, refl)
with_context-Refuses task_id workload_id namespace context_ref (some context) =
    elim (Bool-cases (context.service_id == workload_id)) [
      | inl same ↦ rw same tt
      | inr differs ↦ rw differs (inl (_, refl))
    ]

-- The results of what follows a result are the same in two worlds.
pub continue-same :
    {W A B : Type 0} (r : Result A) (f : A → Exec W B) (w v : W)
    → ((a : A) → (f a w).0 ≡ (f a v).0)
    → (continue r f w).0 ≡ (continue r f v).0
continue-same (ok a) f w v same = same a
continue-same (raise e) f w v same = refl

module _ {E : Type 0} (config : WorkerConfig E) where
  pub required-Refuses :
      (event : EventEnvelope) (name : String) → Refuses (required config event name)
  required-Refuses event name = elim (Option-cases (get_field name event.payload)) [
    | inl missing ↦ rw missing (inr (_, refl))
    | inr (value, found) ↦ rw found tt
  ]

  pub validate-Refuses :
      (event : EventEnvelope) (w : WorkerWorld E) → Refuses (validate config event w).0
  unfolding validate
  validate-Refuses event w = elim (Bool-cases (is_request event.event_type)) [
    | inr other ↦ rw other (inl (_, refl))
    | inl request ↦ rw request (
        continue-Refuses (required config event "task_id") _ w (required-Refuses event "task_id")
          (λ task_id.
            continue-Refuses (required config event "workload_id") _ w
              (required-Refuses event "workload_id")
              (λ workload_id.
                continue-Refuses (required config event "namespace") _ w
                  (required-Refuses event "namespace")
                  (λ namespace.
                    continue-Refuses (required config event "context_ref") _ w
                      (required-Refuses event "context_ref")
                      (λ context_ref.
                        elim (Bool-cases
                          (contains (task_id ∷ workload_id ∷ namespace ∷ context_ref ∷ []) "")) [
                            | inl empty ↦ rw empty (inl (_, refl))
                            | inr filled ↦ rw filled (
                                with_context-Refuses task_id workload_id namespace context_ref
                                  (config.find_context context_ref))
                          ])))))
  ]

  -- What `_validate` finds does not depend on the state of the worker.
  pub validate-same :
      (event : EventEnvelope) (w v : WorkerWorld E)
      → (validate config event w).0 ≡ (validate config event v).0
  unfolding validate
  validate-same event w v = elim (Bool-cases (is_request event.event_type)) [
    | inr other ↦ rw other refl
    | inl request ↦ rw request (
        continue-same (required config event "task_id") _ w v (λ task_id.
          continue-same (required config event "workload_id") _ w v (λ workload_id.
            continue-same (required config event "namespace") _ w v (λ namespace.
              continue-same (required config event "context_ref") _ w v (λ context_ref.
                elim (Bool-cases
                  (contains (task_id ∷ workload_id ∷ namespace ∷ context_ref ∷ []) "")) [
                    | inl empty ↦ rw empty refl
                    | inr filled ↦ rw filled refl
                  ])))))
  ]
