-- ===== src/Agent/System/Verdict.antt =====
-- `verify_system` of agent_layer/graphs/system.py: what its verdict stands for.
use kuber.Base.{
  ℕ, ◌≡◌, sym, ap, subst, ◌∙◌, ◌↔◌, Bool, true, ◌&&◌, Option, none, some, List, [], ◌∷◌, Memᴰ,
  string_eq, nat_eq, ==_iff, arith,
}
use kuber.Base.Lists.{length, all-intro, all-elim}
use kuber.Base.Text.{concat}
use kuber.Base.Result.{Result, ok, ok-injective}
use kuber.Agent.Exec.{item, item_of, bind_inv}
use kuber.Event.Contracts.{
  system_verification_requested, system_verification_completed, EventEnvelope, text, field,
  no_fields,
}
use kuber.Event.Topic
use kuber.Event.Bus.{publish}
use kuber.Agent.System.{SystemGraphState, SystemWorld, SystemConfig, is_accepted, on_bus, envelope}
use kuber.Agent.System.Completion.{workloads_passed, end_to_end, verdict_payload, verify_system}

-- The verifier of the whole system, where there is one, returns true.
abbrev pub VerifierPasses : Option (Result Bool) → Type 0
VerifierPasses none = Unit
VerifierPasses (some answer) = answer ≡ ok true

pub record IsSystemPassed (expected : ℕ) (results : List EventEnvelope)
    (verifier : Option (Result Bool)) : Type 0 where
  pub all_arrived : length results ≡ expected
  pub all_accepted : (event : EventEnvelope) → Memᴰ event results → is_accepted event ≡ true
  pub verified : VerifierPasses verifier

verdict_iff :
    (expected : ℕ) (results : List EventEnvelope) (verifier : Option (Result Bool)) (answer : Bool)
    → end_to_end (workloads_passed expected results) verifier ≡ ok answer
    → ((workloads_passed expected results && answer) ≡ true)
      ↔ IsSystemPassed expected results verifier
verdict_iff expected results verifier answer h = (
  λ passed.
      let workloads : workloads_passed expected results ≡ true = ground arith in
      record {
        all_arrived = (==_iff (length results) expected).0 (ground arith);
        all_accepted = λ event m. all-elim is_accepted m (ground arith);
        verified = passes verifier (ground arith) (rw workloads at h);
      },
  λ passed.
      let counted = (==_iff (length results) expected).1 passed.all_arrived in
      let accepted = all-intro is_accepted results passed.all_accepted in
      let workloads : workloads_passed expected results ≡ true = ground arith in
      rw (workloads) (answered verifier passed.verified (rw workloads at h)),
)
  where
    passes :
        (verifier : Option (Result Bool))
        → answer ≡ true
        → end_to_end true verifier ≡ ok answer
        → VerifierPasses verifier
    passes none yes' h = tt
    passes (some r) yes' h = h ∙ ap ok yes'

    answered :
        (verifier : Option (Result Bool))
        → VerifierPasses verifier
        → end_to_end true verifier ≡ ok answer
        → answer ≡ true
    answered none p h = sym (ok-injective h)
    answered (some r) p h = sym (ok-injective (sym p ∙ h))

module _ (config : SystemConfig) (state : SystemGraphState) (w : SystemWorld)
    {after : SystemGraphState} where
  -- What the node leaves where it returns.
  pub verify_system_inv :
      (expected : ℕ) (results : List EventEnvelope)
      → state.result_events ≡ some results
      → state.expected_results ≡ some expected
      → (verify_system config state w).0 ≡ ok after
      → (passed : Bool) × (after
          ≡ record state { system_passed = some passed; graph_node = "SYSTEM_VERIFY" })
        × ((passed ≡ true) ↔ IsSystemPassed expected results config.system_verifier)
  unfolding verify_system
  verify_system_inv expected results arrived known h =
      let e1 =
        envelope config system_verification_requested state.run_id none
          (field "namespace" (text state.namespace) no_fields) w in
      let (requested, a, h1) = bind_inv e1.0 e1.1 _ h in
      let key = concat (config.cluster ∷ ":" ∷ state.namespace ∷ []) in
      let p1 = on_bus (publish Topic.system_events requested key) e1.1 in
      let (p, b, h2) = bind_inv p1.0 p1.1 _ h1 in
      let (rs, c, h3) = bind_inv (item "result_events" state.result_events) p1.1 _ h2 in
      let (n, d, h4) = bind_inv (item "expected_results" state.expected_results) p1.1 _ h3 in
      let passed = workloads_passed n rs in
      let (answer, e, h5) = bind_inv (end_to_end passed config.system_verifier) p1.1 _ h4 in
      let e2 =
        envelope config system_verification_completed state.run_id (some requested.event_id)
          (verdict_payload state.namespace passed answer) p1.1 in
      let (completed, f, h6) = bind_inv e2.0 e2.1 _ h5 in
      let p2 = on_bus (publish Topic.system_events completed key) e2.1 in
      let (q, g, h7) = bind_inv p2.0 p2.1 _ h6 in
      (
        passed && answer,
        sym (ok-injective h7),
        subst (λ k. ((passed && answer) ≡ true) ↔ IsSystemPassed k results config.system_verifier)
            (ok-injective (sym d ∙ item_of "expected_results" known))
            (subst (λ l. ((passed && answer) ≡ true) ↔ IsSystemPassed n l config.system_verifier)
              (ok-injective (sym c ∙ item_of "result_events" arrived))
              (verdict_iff n rs config.system_verifier answer e)),
      )
