-- ===== src/Agent/Workload/Progress/Loop.antt =====
-- The node `verify` of the loop, which accepts, repairs or gives up.
use kuber.Base.{
  Bool-cases, ◌<◌, ltb, ◌≡◌, refl, inl, inr, true, false, Bool, ◌&&◌, none, some, arith,
  if◌then◌else◌,
}
use kuber.Models.Policy.{Policy}
use kuber.Agent.Environment.{FailureDescription, VerificationResult}
use kuber.Agent.Exec.{Post-cases, pure, ◌>>=◌}
use kuber.Agent.Workload.{
  WorkloadGraphState, Node, GraphConfig, on_environment, verify, check_more_reductions,
  diagnose_failure, restore_last_known_good,
}
use kuber.Agent.Workload.Nodes.{
  verify_node, route_verification, route_result, failure_of, failure_type_of, is_rbac,
  is_unrecoverable, verified,
}
use kuber.Agent.Workload.Run.{step}
use kuber.Agent.Workload.Contract.{Contract}
use kuber.Agent.Workload.Progress
use kuber.Agent.Workload.Progress.Steps

module _ {E : Type 0} (config : GraphConfig E) (original : Policy) (Holds : Policy → E → Type 0)
    (Failed : E → Type 0) (Reports : Policy → VerificationResult → Type 0)
    (Sees : Policy → FailureDescription → Type 0)
    (contract : Contract config.adapter original Holds Failed Reports Sees) where
  abbrev StepFrom : Node → Type 0
  StepFrom node = Steps.StepOf config original Holds Failed Reports Sees contract node

  -- The test of `route_verification`.
  abbrev may_repair : WorkloadGraphState → FailureDescription → Bool
  may_repair state failure =
      is_rbac (some (failure_type_of failure)) && ltb state.retry_count config.max_repair_iterations

  may_repair-lt :
      (state : WorkloadGraphState) (failure : FailureDescription)
      → may_repair state failure ≡ true
      → state.retry_count < config.max_repair_iterations
  may_repair-lt state failure h = ground arith

  failure_of-passed :
      (result : VerificationResult) → result.passed ≡ true → failure_of config result ≡ pure none
  unfolding failure_of
  failure_of-passed result passed = rw passed refl

  failure_of-failed :
      (result : VerificationResult)
      → result.passed ≡ false
      → failure_of config result ≡ (
          on_environment (config.adapter.describe_failure result) >>= λ failure.
          pure (some failure))
  unfolding failure_of
  failure_of-failed result failed = rw failed refl

  route-passed :
      (state : WorkloadGraphState) (result : VerificationResult)
      → result.passed ≡ true
      → route_result config.max_repair_iterations state result ≡ check_more_reductions
  unfolding route_result
  route-passed state result passed = rw passed refl

  route-failed :
      (state : WorkloadGraphState) (result : VerificationResult)
      → result.passed ≡ false
      → route_result config.max_repair_iterations state result ≡ (
          if is_rbac state.failure_type && ltb state.retry_count config.max_repair_iterations
          then diagnose_failure
          else restore_last_known_good)
  unfolding route_result
  route-failed state result failed = rw failed refl

  may_not_repair :
      (state : WorkloadGraphState) (failure : FailureDescription) (candidate : Policy)
      → may_repair state failure ≡ false
      → Progress.IsStuck config.max_repair_iterations original Sees state.retry_count candidate
          failure
  may_not_repair state failure candidate h = elim (Bool-cases failure.authorization_denial) [
    | inl denial ↦ inr (inl (ground (arith, (rw denial at h))))
    | inr other ↦ inl other
  ]

  -- What is known where the next node runs.
  abbrev OnTrial : Progress.Facts → E → Type 0
  OnTrial = Progress.OnTrial config.max_repair_iterations original Holds Failed Reports Sees

  passes :
      (state : WorkloadGraphState) (result : VerificationResult) {e : E} (v : E)
      (ready : OnTrial (Progress.facts state) e)
      → Holds ready.candidate v
      → result.passed ≡ true
      → Reports ready.candidate result
      → Progress.Passed config.max_repair_iterations original Holds Failed Reports Sees
          (Progress.facts (verified state result none))
          v
  passes state result v ready now passed reports = record {
    inspected = ready.inspected;
    candidate = ready.candidate;
    current_is = ready.current_is;
    valid = ready.valid;
    holds = now;
    result = result;
    result_is = refl;
    passed = passed;
    reports = reports;
  }

  described-is_recoverable :
      (failure : FailureDescription) → is_unrecoverable (some (failure_type_of failure)) ≡ false
  described-is_recoverable failure = elim (Bool-cases failure.authorization_denial) [
    | inl denial ↦ rw denial refl
    | inr other ↦ rw other refl
  ]

  denied :
      (state : WorkloadGraphState) (result : VerificationResult) (failure : FailureDescription)
      {e : E} (v : E) (ready : OnTrial (Progress.facts state) e)
      → Holds ready.candidate v
      → Sees ready.candidate failure
      → may_repair state failure ≡ true
      → Progress.Repairable config.max_repair_iterations original Holds Failed Reports Sees
          (Progress.facts (verified state result (some failure)))
          v
  denied state result failure v ready now sees again = record {
    trial = record {
      inspected = ready.inspected;
      candidate = ready.candidate;
      candidate_is = ready.candidate_is;
      current_is = ready.current_is;
      valid = ready.valid;
      tried = ready.tried;
      holds = now;
    };
    result = result;
    result_is = refl;
    failure = failure;
    failure_is = refl;
    sees = sees;
    recoverable = described-is_recoverable failure;
    left = may_repair-lt state failure again;
  }

  given_up :
      (state : WorkloadGraphState) (result : VerificationResult) (failure : FailureDescription)
      {e : E} (v : E) (ready : OnTrial (Progress.facts state) e)
      → Holds ready.candidate v
      → Sees ready.candidate failure
      → may_repair state failure ≡ false
      → Progress.Rejected config.max_repair_iterations original Holds Failed Reports Sees
          (Progress.facts (verified state result (some failure)))
          v
  given_up state result failure v ready now sees stop = record {
    inspected = ready.inspected;
    result = result;
    result_is = refl;
    why = (
      ready.candidate,
      failure,
      ready.valid,
      sees,
      ready.tried,
      may_not_repair state failure ready.candidate stop,
    );
    in_force = ready.candidate;
    holds = now;
  }

  pub step-verify : StepFrom verify
  unfolding step verify_node route_verification
  step-verify state w ready =
      elim (Post-cases (config.adapter.verify_workload w.environment)
        (contract.verifies w.environment ready.candidate ready.holds)) [
          | inl (result, e, verifies, (reports, now)) ↦ elim (Bool-cases result.passed) [
            | inl passed ↦
                rw
                  (
                    verifies,
                    failure_of-passed result passed,
                    route-passed (verified state result none) result passed,
                  )
                  (passes state result e ready now passed reports, omega arith)
            | inr failed ↦
                rw (verifies, failure_of-failed result failed)
                  (elim (Post-cases (config.adapter.describe_failure result e)
                    (contract.describes e ready.candidate result now reports failed)) [
                      | inl (failure, v, describes, (sees, still)) ↦
                          rw
                            (
                              describes,
                              route-failed (verified state result (some failure)) result failed,
                            )
                            (elim (Bool-cases (may_repair state failure)) [
                              | inl again ↦ rw again (
                                denied state result failure v ready still sees again,
                                omega arith,
                              )
                              | inr stop ↦ rw stop (
                                given_up state result failure v ready still sees stop,
                                omega arith,
                              )
                            ])
                      | inr (x, v, describes, broken) ↦ rw describes broken
                    ])
          ]
          | inr (x, e, verifies, failed) ↦ rw verifies failed
        ]
