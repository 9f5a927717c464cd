-- ===== src/Agent/Workload/Progress.antt =====
-- What holds where a node of the workload graph is about to run.
pub mod Steps
pub mod Loop
pub mod Repairing
use kuber.Base.{
  ℕ, ◌≤◌, ◌<◌, ◌+◌, ◌*◌, ◌-◌, ◌≡◌, ◌⊎◌, true, false, Bool, Option, none, some, List, Memᴰ,
}
use kuber.Base.Lists.{length}
use kuber.Base.Result.{ok}
use kuber.Agent.Verifier.{repair}
use kuber.Models.Event.{KubeEvent}
use kuber.Models.Policy.{Policy}
use kuber.Risk.Scorer.{RiskAssessment, score_policy}
use kuber.Minimizer.Reducer.Observed.{IsUsable}
use kuber.Agent.Environment.{FailureDescription, VerificationResult}
use kuber.Agent.Workload.{
  FailureType, WorkloadGraphState, Node, load_service_context, inspect_rbac, gather_evidence,
  generate_candidate, validate_candidate, apply_candidate, verify, check_more_reductions,
  final_verify, diagnose_failure, repair_policy, restore_last_known_good, human_review,
  finalize_workload, publish_result_event,
}
use kuber.Agent.Workload.Nodes.{is_unrecoverable}
use kuber.Agent.Workload.Candidate.{IsCandidate}

-- What decides the run, of the state.
pub record Facts : Type 0 where
  pub retry_count : ℕ
  pub accepted : Bool
  pub original_policy : Option Policy
  pub current_policy : Option Policy
  pub candidate_policy : Option Policy
  pub last_known_good_policy : Option Policy
  pub observed_events : Option (List KubeEvent)
  pub original_risk : Option RiskAssessment
  pub verification_result : Option VerificationResult
  pub failure_details : Option FailureDescription
  pub failure_type : Option FailureType

abbrev pub facts : WorkloadGraphState → Facts
facts state = record {
  retry_count = state.retry_count;
  accepted = state.accepted;
  original_policy = state.original_policy;
  current_policy = state.current_policy;
  candidate_policy = state.candidate_policy;
  last_known_good_policy = state.last_known_good_policy;
  observed_events = state.observed_events;
  original_risk = state.original_risk;
  verification_result = state.verification_result;
  failure_details = state.failure_details;
  failure_type = state.failure_type;
}

module _ (max_repair_iterations : ℕ) where
  -- Five steps lead from one repair to the next.
  abbrev pub repairs_left : Facts → ℕ
  repairs_left state = 5 * (max_repair_iterations - state.retry_count)

  -- How many steps are left at most, the node's own counted.
  abbrev pub steps_left : Node → Facts → ℕ
  steps_left load_service_context state = 11 + repairs_left state
  steps_left inspect_rbac state = 10 + repairs_left state
  steps_left gather_evidence state = 9 + repairs_left state
  steps_left generate_candidate state = 8 + repairs_left state
  steps_left validate_candidate state = 7 + repairs_left state
  steps_left apply_candidate state = 6 + repairs_left state
  steps_left verify state = 5 + repairs_left state
  steps_left check_more_reductions state = 4
  steps_left final_verify state = 3
  steps_left diagnose_failure state = 4 + repairs_left state
  steps_left repair_policy state = 3 + repairs_left state
  steps_left restore_last_known_good state = 4
  steps_left human_review state = 3
  steps_left finalize_workload state = 2
  steps_left publish_result_event state = 1

  abbrev pub steps_next : Option Node → Facts → ℕ
  steps_next none state = 0
  steps_next (some node) state = steps_left node state

module _ (max_repair_iterations : ℕ) (original : Policy)
    (Sees : Policy → FailureDescription → Type 0) where
  -- A candidate is the first one, or the repair of one whose verification failed.
  abbrev pub Tried : ℕ → Policy → Type 0
  Tried retry_count candidate =
      (retry_count ≡ 0)
      ⊎ ((before : Policy) × (failure : FailureDescription) × IsCandidate original before
          × Sees before failure
          × (repair before failure original ≡ ok candidate))

  -- Why the repair ends: the failure is no denial, the repairs are used up, or nothing is restored.
  abbrev pub IsStuck : ℕ → Policy → FailureDescription → Type 0
  IsStuck retry_count candidate failure =
      (failure.authorization_denial ≡ false)
      ⊎ (max_repair_iterations ≤ retry_count)
      ⊎ ((p : Policy)
          → repair candidate failure original ≡ ok p
          → length p.permissions ≤ length candidate.permissions)

  -- Why a run is not accepted.
  abbrev pub Why : ℕ → Type 0
  Why retry_count =
      (candidate : Policy) × (failure : FailureDescription) × IsCandidate original candidate
      × Sees candidate failure
      × Tried retry_count candidate
      × IsStuck retry_count candidate failure

module _ {E : Type 0} (max_repair_iterations : ℕ) (original : Policy) (Holds : Policy → E → Type 0)
    (Failed : E → Type 0) (Reports : Policy → VerificationResult → Type 0)
    (Sees : Policy → FailureDescription → Type 0) where
  -- After `inspect_rbac`.
  pub record InspectedFields (original_policy last_known_good_policy : Option Policy)
      (original_risk : Option RiskAssessment) (retry_count : ℕ) : Type 0 where
    pub original_is : original_policy ≡ some original
    pub good_is : last_known_good_policy ≡ some original
    pub risk_is : original_risk ≡ some (score_policy original)
    pub retries : retry_count ≤ max_repair_iterations

  abbrev pub Inspected : Facts → Type 0
  Inspected state =
      InspectedFields state.original_policy state.last_known_good_policy state.original_risk
        state.retry_count

  -- After `gather_evidence`.
  pub record Gathered (state : Facts) (e : E) : Type 0 where
    pub inspected : Inspected state
    pub first : state.retry_count ≡ 0
    pub holds : Holds original e
    pub calls : List KubeEvent
    pub calls_are : state.observed_events ≡ some calls
    pub usable : Failed e ⊎ ((call : KubeEvent) → Memᴰ call calls → IsUsable original call)

  -- A candidate that is not applied yet.
  pub record Proposed (state : Facts) (e : E) : Type 0 where
    pub inspected : Inspected state
    pub candidate : Policy
    pub candidate_is : state.candidate_policy ≡ some candidate
    pub valid : IsCandidate original candidate
    pub tried : Tried max_repair_iterations original Sees state.retry_count candidate
    pub in_force : Policy
    pub holds : Holds in_force e

  -- A candidate in force.
  pub record OnTrial (state : Facts) (e : E) : Type 0 where
    pub inspected : Inspected state
    pub candidate : Policy
    pub candidate_is : state.candidate_policy ≡ some candidate
    pub current_is : state.current_policy ≡ some candidate
    pub valid : IsCandidate original candidate
    pub tried : Tried max_repair_iterations original Sees state.retry_count candidate
    pub holds : Holds candidate e

  -- A candidate that did not pass, with a repair left.
  pub record Repairable (state : Facts) (e : E) : Type 0 where
    pub trial : OnTrial state e
    pub result : VerificationResult
    pub result_is : state.verification_result ≡ some result
    pub failure : FailureDescription
    pub failure_is : state.failure_details ≡ some failure
    pub sees : Sees trial.candidate failure
    pub recoverable : is_unrecoverable state.failure_type ≡ false
    pub left : state.retry_count < max_repair_iterations

  -- A candidate that is given up.
  pub record Rejected (state : Facts) (e : E) : Type 0 where
    pub inspected : Inspected state
    pub result : VerificationResult
    pub result_is : state.verification_result ≡ some result
    pub why : Why max_repair_iterations original Sees state.retry_count
    pub in_force : Policy
    pub holds : Holds in_force e

  -- A candidate that passed.
  pub record Passed (state : Facts) (e : E) : Type 0 where
    pub inspected : Inspected state
    pub candidate : Policy
    pub current_is : state.current_policy ≡ some candidate
    pub valid : IsCandidate original candidate
    pub holds : Holds candidate e
    pub result : VerificationResult
    pub result_is : state.verification_result ≡ some result
    pub passed : result.passed ≡ true
    pub reports : Reports candidate result

  -- The original policy back in force.
  pub record Restored (state : Facts) (e : E) : Type 0 where
    pub inspected : Inspected state
    pub not_accepted : state.accepted ≡ false
    pub current_is : state.current_policy ≡ some original
    pub holds : Holds original e
    pub result : VerificationResult
    pub result_is : state.verification_result ≡ some result
    pub why : Why max_repair_iterations original Sees state.retry_count

  abbrev pub Decided : Facts → E → Type 0
  Decided state e = ((state.accepted ≡ true) × Passed state e) ⊎ Restored state e

  abbrev pub Ready : Node → Facts → E → Type 0
  Ready load_service_context state e = (state.retry_count ≡ 0) × Holds original e
  Ready inspect_rbac state e = (state.retry_count ≡ 0) × Holds original e
  Ready gather_evidence state e = Inspected state × (state.retry_count ≡ 0) × Holds original e
  Ready generate_candidate state e = Gathered state e
  Ready validate_candidate state e = Proposed state e
  Ready apply_candidate state e = Proposed state e
  Ready verify state e = OnTrial state e
  Ready check_more_reductions state e = Passed state e
  Ready final_verify state e = Passed state e
  Ready diagnose_failure state e = Repairable state e
  Ready repair_policy state e = Repairable state e
  Ready restore_last_known_good state e = Rejected state e
  Ready human_review state e = Restored state e
  Ready finalize_workload state e = Decided state e
  Ready publish_result_event state e = Decided state e

  -- Where the graph goes next, or stops.
  abbrev pub ReadyNext : Option Node → Facts → E → Type 0
  ReadyNext none state e = Decided state e
  ReadyNext (some node) state e = Ready node state e
