-- ===== src/Agent/Workload/Progress/Repairing.antt =====
-- The nodes `diagnose_failure` and `repair_policy` of the loop.
use kuber.Base.{Bool-cases, ◌≤◌, leb, ◌≡◌, refl, sym, subst, ◌∙◌, inl, inr, true, some, arith}
use kuber.Base.Lists.{length}
use kuber.Base.Result.{ok, Result-cases, raise≢ok, ok-injective, RaisesValueError}
use kuber.Models.Policy.{Policy}
use kuber.Agent.Environment.{FailureDescription, VerificationResult}
use kuber.Agent.Exec.{item_of, assert_some_of}
use kuber.Agent.Workload.{
  WorkloadGraphState, Node, World, GraphConfig, validate_candidate, diagnose_failure, repair_policy,
  restore_last_known_good,
}
use kuber.Agent.Workload.Nodes.{
  diagnose, repair_node, route_repair, after_repair, retry_with, unrepaired, retried,
}
use kuber.Agent.Workload.Run.{step}
use kuber.Agent.Workload.Candidate.{repair-IsCandidate, repair-RaisesValueError}
use kuber.Agent.Workload.Contract.{Contract}
use kuber.Agent.Verifier.{repair}
use kuber.Agent.Workload.Progress
use kuber.Agent.Workload.Progress.Steps

module _ {E : Type 0} (config : GraphConfig E) (original : Policy) (Holds : Policy → E → Type 0)
    (Failed : E → Type 0) (Reports : Policy → VerificationResult → Type 0)
    (Sees : Policy → FailureDescription → Type 0)
    (contract : Contract config.adapter original Holds Failed Reports Sees) where
  abbrev StepFrom : Node → Type 0
  StepFrom node = Steps.StepOf config original Holds Failed Reports Sees contract node

  pub step-diagnose : StepFrom diagnose_failure
  unfolding step diagnose
  step-diagnose state w ready = rw (assert_some_of ready.failure_is) (ready, omega arith)

  -- `repair` gives up.
  unrepaired-Progressed :
      (state : WorkloadGraphState) (w : World E)
      (ready : Progress.Ready config.max_repair_iterations original Holds Failed Reports Sees
        repair_policy
        (Progress.facts state)
        w.environment)
      → ((p : Policy)
          → repair ready.trial.candidate ready.failure original ≡ ok p
          → length p.permissions ≤ length ready.trial.candidate.permissions)
      → Steps.Progressed config original Holds Failed Reports Sees contract repair_policy state
          (some restore_last_known_good, unrepaired state)
          w
  unrepaired-Progressed state w ready no_more = (
    record {
      inspected = ready.trial.inspected;
      result = ready.result;
      result_is = ready.result_is;
      why = (
        ready.trial.candidate,
        ready.failure,
        ready.trial.valid,
        ready.sees,
        ready.trial.tried,
        inr (inr no_more),
      );
      in_force = ready.trial.candidate;
      holds = ready.trial.holds;
    },
    omega (arith, ready.left),
  )

  retried-Progressed :
      (state : WorkloadGraphState) (w : World E) (repaired : Policy)
      → (ready : Progress.Ready config.max_repair_iterations original Holds Failed Reports Sees
          repair_policy
          (Progress.facts state)
          w.environment)
      → repair ready.trial.candidate ready.failure original ≡ ok repaired
      → Steps.Progressed config original Holds Failed Reports Sees contract repair_policy state
          (some validate_candidate, retried state ready.trial.candidate repaired)
          w
  retried-Progressed state w repaired ready same = (
    record {
      inspected = record {
        original_is = ready.trial.inspected.original_is;
        good_is = ready.trial.inspected.good_is;
        risk_is = ready.trial.inspected.risk_is;
        retries = omega (arith, ready.left);
      };
      candidate = repaired;
      candidate_is = refl;
      valid =
          repair-IsCandidate original ready.trial.candidate ready.failure ready.trial.valid same;
      tried = inr (ready.trial.candidate, ready.failure, ready.trial.valid, ready.sees, same);
      in_force = ready.trial.candidate;
      holds = ready.trial.holds;
    },
    omega (arith, ready.left),
  )

  no_more_permissions :
      (candidate repaired : Policy) (failure : FailureDescription)
      → repair candidate failure original ≡ ok repaired
      → leb (length repaired.permissions) (length candidate.permissions) ≡ true
      → (p : Policy) → repair candidate failure original ≡ ok p
      → length p.permissions ≤ length candidate.permissions
  no_more_permissions candidate repaired failure same no_more p eq =
      subst (λ q. length q.permissions ≤ length candidate.permissions)
        (ok-injective (sym same ∙ eq)) (ground (arith, no_more))

  pub step-repair : StepFrom repair_policy
  unfolding step repair_node after_repair retry_with route_repair
  step-repair state w ready =
      rw
        (
          assert_some_of ready.failure_is,
          item_of "candidate_policy" ready.trial.candidate_is,
          item_of "original_policy" ready.trial.inspected.original_is,
        )
        (elim (Result-cases (repair ready.trial.candidate ready.failure original)) [
          | inl (repaired, same) ↦
              elim (Bool-cases
                (leb (length repaired.permissions) (length ready.trial.candidate.permissions))) [
                  | inl no_more ↦
                      rw (same, no_more)
                        (unrepaired-Progressed state w ready (
                          no_more_permissions ready.trial.candidate repaired ready.failure same
                            no_more))
                  | inr more ↦
                      rw (same, more, ready.recoverable)
                        (retried-Progressed state w repaired ready same)
                ]
          | inr (x, same) ↦
              let (message, is_value_error) =
                subst RaisesValueError same
                  (repair-RaisesValueError original ready.trial.candidate ready.failure) in
              rw (same, is_value_error)
                (unrepaired-Progressed state w ready (λ p eq. absurd (raise≢ok (sym same ∙ eq))))
        ])
