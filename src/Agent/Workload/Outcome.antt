-- ===== src/Agent/Workload/Outcome.antt =====
-- What a run of the workload graph ends with, over any environment that keeps its contract.
use kuber.Base.{
  ℕ, zero, suc, ◌≤◌, ◌<◌, ◌+◌, ◌*◌, ◌≡◌, refl, ◌⊎◌, inl, inr, true, false, Option, none, some,
  String, [], arith,
}
use kuber.Models.Policy.{Policy}
use kuber.Risk.Scorer.{score_policy}
use kuber.Agent.Environment.{FailureDescription, VerificationResult}
use kuber.Agent.Exec.{Post, Post-cases, item_of}
use kuber.Agent.Workload.{
  WorkloadGraphState, Node, World, GraphConfig, load_service_context, inspect_rbac, gather_evidence,
  generate_candidate, validate_candidate, apply_candidate, verify, check_more_reductions,
  final_verify, diagnose_failure, repair_policy, restore_last_known_good, human_review,
  finalize_workload, publish_result_event,
}
use kuber.Agent.Workload.Run.{
  step, invoke, execution, run_in, run, WorkloadExecution, initial_state, or_given,
}
use kuber.Agent.Workload.Candidate.{IsCandidate}
use kuber.Agent.Workload.Contract.{Contract}
use kuber.Agent.Workload.Progress
use kuber.Agent.Workload.Progress.Steps
use kuber.Agent.Workload.Progress.Loop
use kuber.Agent.Workload.Progress.Repairing

-- The node that runs counts.
steps_left-pos :
    (n : ℕ) (node : Node) (state : Progress.Facts) → 0 < Progress.steps_left n node state
steps_left-pos n load_service_context state = omega arith
steps_left-pos n inspect_rbac state = omega arith
steps_left-pos n gather_evidence state = omega arith
steps_left-pos n generate_candidate state = omega arith
steps_left-pos n validate_candidate state = omega arith
steps_left-pos n apply_candidate state = omega arith
steps_left-pos n verify state = omega arith
steps_left-pos n check_more_reductions state = omega arith
steps_left-pos n final_verify state = omega arith
steps_left-pos n diagnose_failure state = omega arith
steps_left-pos n repair_policy state = omega arith
steps_left-pos n restore_last_known_good state = omega arith
steps_left-pos n human_review state = omega arith
steps_left-pos n finalize_workload state = omega arith
steps_left-pos n publish_result_event state = omega arith

-- What a caller learns of a returned execution.
pub record Outcome {E : Type 0} (max_repair_iterations : ℕ) (original : Policy)
    (Holds : Policy → E → Type 0) (Reports : Policy → VerificationResult → Type 0)
    (Sees : Policy → FailureDescription → Type 0) (execution : WorkloadExecution) (e : E)
    : Type 0 where
  pub original_is : execution.original_policy ≡ original
  pub risk_is : execution.original_risk ≡ score_policy original
  pub final_risk_is : execution.final_risk ≡ score_policy execution.final_policy
  pub repairs : execution.repair_iterations ≤ max_repair_iterations
  pub in_force : Holds execution.final_policy e
  pub decided :
      ((execution.accepted ≡ true)
        × (execution.verification.passed ≡ true)
        × IsCandidate original execution.final_policy
        × Reports execution.final_policy execution.verification)
      ⊎ ((execution.accepted ≡ false)
          × (execution.final_policy ≡ original)
          × Progress.Why max_repair_iterations original Sees execution.repair_iterations)

module _ {E : Type 0} (config : GraphConfig E) (original : Policy) (Holds : Policy → E → Type 0)
    (Failed : E → Type 0) (Reports : Policy → VerificationResult → Type 0)
    (Sees : Policy → FailureDescription → Type 0)
    (contract : Contract config.adapter original Holds Failed Reports Sees) where
  pub step-Progressed :
      (node : Node) → Steps.StepOf config original Holds Failed Reports Sees contract node
  step-Progressed load_service_context =
      Steps.step-load config original Holds Failed Reports Sees contract
  step-Progressed inspect_rbac =
      Steps.step-inspect config original Holds Failed Reports Sees contract
  step-Progressed gather_evidence =
      Steps.step-gather config original Holds Failed Reports Sees contract
  step-Progressed generate_candidate =
      Steps.step-generate config original Holds Failed Reports Sees contract
  step-Progressed validate_candidate =
      Steps.step-validate config original Holds Failed Reports Sees contract
  step-Progressed apply_candidate =
      Steps.step-apply config original Holds Failed Reports Sees contract
  step-Progressed verify = Loop.step-verify config original Holds Failed Reports Sees contract
  step-Progressed check_more_reductions =
      Steps.step-check_more config original Holds Failed Reports Sees contract
  step-Progressed final_verify =
      Steps.step-final_verify config original Holds Failed Reports Sees contract
  step-Progressed diagnose_failure =
      Repairing.step-diagnose config original Holds Failed Reports Sees contract
  step-Progressed repair_policy =
      Repairing.step-repair config original Holds Failed Reports Sees contract
  step-Progressed restore_last_known_good =
      Steps.step-restore config original Holds Failed Reports Sees contract
  step-Progressed human_review =
      Steps.step-human_review config original Holds Failed Reports Sees contract
  step-Progressed finalize_workload =
      Steps.step-finalize config original Holds Failed Reports Sees contract
  step-Progressed publish_result_event =
      Steps.step-publish config original Holds Failed Reports Sees contract

  abbrev Decided : WorkloadGraphState → World E → Type 0
  Decided final w =
      Progress.Decided config.max_repair_iterations original Holds Failed Reports Sees
        (Progress.facts final) w.environment

  abbrev Broken : World E → Type 0
  Broken w = Failed w.environment

  invoke-Decided :
      (limit : ℕ) (next : Option Node) (state : WorkloadGraphState) (w : World E)
      → Progress.steps_next config.max_repair_iterations next (Progress.facts state) ≤ limit
      → Progress.ReadyNext config.max_repair_iterations original Holds Failed Reports Sees next
          (Progress.facts state)
          w.environment
      → Post Decided Broken (invoke config limit next state w)
  unfolding invoke
  invoke-Decided zero none state w enough ready = ready
  invoke-Decided (suc limit) none state w enough ready = ready
  invoke-Decided zero (some node) state w enough ready = absurd (
      omega
        (arith, enough, steps_left-pos config.max_repair_iterations node (Progress.facts state)))
  invoke-Decided (suc limit) (some node) state w enough ready =
      elim (Post-cases (step config node state w) (step-Progressed node state w ready)) [
        | inl ((next, after), v, steps, (progress, less)) ↦
            rw steps (invoke-Decided limit next after v (omega (arith, less, enough)) progress)
        | inr (x, v, steps, failed) ↦ rw steps failed
      ]

  execution-Outcome :
      (run_id : String) (final : WorkloadGraphState) (w : World E)
      → Decided final w
      → Post
          (λ x v. Outcome config.max_repair_iterations original Holds Reports Sees x v.environment)
          Broken
          (execution config run_id final w)
  unfolding execution
  execution-Outcome run_id final w (inl (accepted, passed)) =
      rw
        (
          item_of "original_policy" passed.inspected.original_is,
          accepted,
          item_of "current_policy" passed.current_is,
          item_of "original_risk" passed.inspected.risk_is,
          item_of "verification_result" passed.result_is,
        )
        (record {
          original_is = refl;
          risk_is = refl;
          final_risk_is = refl;
          repairs = passed.inspected.retries;
          in_force = passed.holds;
          decided = inl (refl, passed.passed, passed.valid, passed.reports);
        })
  execution-Outcome run_id final w (inr restored) =
      rw
        (
          item_of "original_policy" restored.inspected.original_is,
          restored.not_accepted,
          item_of "original_risk" restored.inspected.risk_is,
          item_of "verification_result" restored.result_is,
        )
        (record {
          original_is = refl;
          risk_is = refl;
          final_risk_is = refl;
          repairs = restored.inspected.retries;
          in_force = restored.holds;
          decided = inr (refl, refl, restored.why);
        })

  -- Over any environment that keeps its contract and starts with the original policy in
  -- force, where the step limit is at least eleven and five for each allowed repair: the run
  -- returns, or it raises with the environment as the contract says of an operation that
  -- raised or of an observed call that cannot be used. A returned execution names the
  -- original policy and the risk scores, used at most the allowed repairs, and left its final
  -- policy in force: either it is accepted, its last verification passed under the final
  -- policy, and each permission of that policy is the narrow one of a call that the original
  -- policy allows; or it is not accepted, the final policy is the original one, and the last
  -- failed candidate was no denial, had used up its repairs, or gained no permission by its
  -- repair.
  pub run-Outcome :
      (limit : ℕ) (run_id : String) (task_id workload_id : Option String)
      (context_ref repository_ref : String) (e : E)
      → 11 + 5 * config.max_repair_iterations ≤ limit
      → Holds original e
      → Post
          (Outcome config.max_repair_iterations original Holds Reports Sees)
          Failed
          (run config limit run_id task_id workload_id context_ref repository_ref e)
  unfolding run run_in
  run-Outcome limit run_id task_id workload_id context_ref repository_ref e enough holds =
      let initial =
        initial_state run_id (or_given task_id run_id)
          (or_given workload_id (config.adapter.name e)) context_ref repository_ref in
      let start : World E = record { environment = e; events = [] } in
      elim (Post-cases (invoke config limit (some load_service_context) initial start) (
        invoke-Decided limit (some load_service_context) initial start (omega (arith, enough))
          (refl, holds))) [
            | inl (final, w, invokes, decided) ↦
                elim (Post-cases (execution config run_id final w)
                  (execution-Outcome run_id final w decided)) [
                    | inl (x, v, executes, outcome) ↦ rw (invokes, executes) outcome
                    | inr (x, v, executes, failed) ↦ rw (invokes, executes) failed
                  ]
            | inr (x, w, invokes, failed) ↦ rw invokes failed
          ]
