-- ===== src/Agent/System/Waiting.antt =====
-- `wait_for_completion` of agent_layer/graphs/system.py: which results are waited for.
use kuber.Base.{
  ℕ, ltb, ◌≤◌, String, ◌≡◌, sym, ap, subst, ◌∙◌, inl, inr, true, false, Bool-cases, Option, none,
  some, List, [], ◌∷◌, Memᴰ, ◌==◌, string_eq, nat_eq, ==_iff, arith,
}
use kuber.Base.Lists.{length, length-append, Memᴰ-cons_cases, Memᴰ-append_cases}
use kuber.Base.Result.{Result, ok, ok-injective, raise≢ok, timeout_error}
use kuber.Agent.Exec.{item, item_of, bind_inv}
use kuber.Event.Contracts.{EventEnvelope}
use kuber.Event.Bus.{Bus, ConsumedEvent}
use kuber.Agent.System.{SystemGraphState, SystemWorld, SystemConfig}
use kuber.Agent.System.Completion.{
  add_result, next_message, settle_result, with_message, collect, wait_for_completion,
}

-- The collected results are no more than expected, and each is of the run.
pub record IsOfRun (run_id : String) (expected : ℕ) (results : List EventEnvelope) : Type 0 where
  pub bound : length results ≤ expected
  pub of_run : (event : EventEnvelope) → Memᴰ event results → event.run_id ≡ run_id

add_result-IsOfRun :
    (run_id : String) (expected : ℕ) (event : EventEnvelope) (results : List EventEnvelope)
    → ltb (length results) expected ≡ true
    → IsOfRun run_id expected results
    → IsOfRun run_id expected (add_result run_id event results)
add_result-IsOfRun run_id expected event results room valid =
    elim (Bool-cases (event.run_id == run_id)) [
      | inr other ↦ rw other valid
      | inl same ↦ rw same (record {
        bound = ground (arith, length-append results (event ∷ []));
        of_run = λ e m. elim (Memᴰ-append_cases results m) [
          | inl earlier ↦ valid.of_run e earlier
          | inr last ↦ elim (Memᴰ-cons_cases last) [
            | inl here ↦ ap (λ x. x.run_id) here ∙ (==_iff event.run_id run_id).0 same
            | inr nothing ↦ elim nothing [ ]
          ]
        ];
      })
    ]

with_message-IsOfRun :
    (run_id : String) (expected : ℕ) (message : Option ConsumedEvent) (results : List EventEnvelope)
    → ltb (length results) expected ≡ true
    → IsOfRun run_id expected results
    → IsOfRun run_id expected (with_message run_id message results)
with_message-IsOfRun run_id expected none results room valid = valid
with_message-IsOfRun run_id expected (some message) results room valid =
    add_result-IsOfRun run_id expected message.event results room valid

-- The results are as many as expected, and each is of the run.
pub record IsComplete (run_id : String) (expected : ℕ) (results : List EventEnvelope) : Type 0 where
  pub count : length results ≡ expected
  pub of_run : (event : EventEnvelope) → Memᴰ event results → event.run_id ≡ run_id

complete :
    (run_id : String) (expected : ℕ) (results answer : List EventEnvelope)
    → ltb (length results) expected ≡ false
    → IsOfRun run_id expected results
    → results ≡ answer
    → IsComplete run_id expected answer
complete run_id expected results answer full valid same =
    subst (IsComplete run_id expected) same
      (record { count = ground (arith, valid.bound); of_run = valid.of_run })

collect-IsComplete :
    (expected : ℕ) (run_id : String) (others : List (Bus → Bus)) (results : List EventEnvelope)
    (bus : Bus) {answer : List EventEnvelope}
    → IsOfRun run_id expected results
    → (collect expected run_id others results bus).0 ≡ ok answer
    → IsComplete run_id expected answer
unfolding collect
collect-IsComplete expected run_id [] results bus {answer} valid h =
    elim (Bool-cases (ltb (length results) expected)) [
      | inl room ↦
          let raised : Result.raise timeout_error ≡ ok answer = rw room at h in
          absurd (raise≢ok raised)
      | inr full ↦
          let returned : ok results ≡ ok answer = rw full at h in
          complete run_id expected results answer full valid (ok-injective returned)
    ]
collect-IsComplete expected run_id (other ∷ rest) results bus {answer} valid h =
    elim (Bool-cases (ltb (length results) expected)) [
      | inr full ↦
          let returned : ok results ≡ ok answer = rw full at h in
          complete run_id expected results answer full valid (ok-injective returned)
      | inl room ↦
          let (message, a, h1) =
            bind_inv (next_message run_id other bus).0 (next_message run_id other bus).1 _
              (rw room at h) in
          let (u, b, h2) =
            bind_inv (settle_result message (next_message run_id other bus).1).0 _ _ h1 in
          collect-IsComplete expected run_id rest (with_message run_id message results) _
            (with_message-IsOfRun run_id expected message results room valid) h2
    ]

module _ (config : SystemConfig) (state : SystemGraphState) (w : SystemWorld)
    {after : SystemGraphState} where
  -- What the node leaves where it returns.
  pub wait_for_completion_inv :
      (expected : ℕ)
      → state.expected_results ≡ some expected
      → (wait_for_completion config state w).0 ≡ ok after
      → (results : List EventEnvelope) × IsComplete state.run_id expected results
        × (after ≡ record state {
          result_events = some results;
          graph_node = "WAIT_FOR_COMPLETION_EVENTS";
        })
  unfolding wait_for_completion
  wait_for_completion_inv expected known h =
      let (n, a, h1) = bind_inv (item "expected_results" state.expected_results) w _ h in
      let same : n ≡ expected = ok-injective (sym a ∙ item_of "expected_results" known) in
      let collected = collect n state.run_id config.others [] w.bus in
      let (results, b, h2) = bind_inv collected.0 (record w { bus = collected.1 }) _ h1 in
      (
        results,
        subst (λ k. IsComplete state.run_id k results) same
            (collect-IsComplete n state.run_id config.others [] w.bus
              (record { bound = omega arith; of_run = λ event m. elim m [ ] }) b),
        sym (ok-injective h2),
      )
