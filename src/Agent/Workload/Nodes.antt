-- ===== src/Agent/Workload/Nodes.antt =====
-- The node functions and the routes of `WorkloadOptimizationGraph._build`.
use kuber.Base.{
  ℕ, ◌+◌, ◌-◌, ltb, leb, Bool, true, false, not, ◌&&◌, Option, none, some, [], ◌∷◌, map,
  if◌then◌else◌,
}
use kuber.Base.Lists.{length, all}
use kuber.Base.Text.{concat, show}
use kuber.Base.Result.{Result, ok, raise, value_error, map_ok}
use kuber.Models.Event.{KubeEvent}
use kuber.Models.Permission.{Permission}
use kuber.Models.Policy.{Policy}
use kuber.Rbac.Authorization.{is_authorized}
use kuber.Rbac.Canonicalizer.{effective_permission_count}
use kuber.Minimizer.Reducer.{observed_only_policy}
use kuber.Risk.Scorer.{score_policy}
use kuber.Agent.Environment.{VerificationResult, FailureDescription}
use kuber.Agent.Exec.{Exec, pure, lift, item, assert_some, ◌>>=◌, ◌>>◌}
use kuber.Agent.Verifier.{repair}
use kuber.Agent.Workload.{
  FailureType, rbac, unrelated, unrecoverable, WorkloadGraphState, Node, World, GraphConfig,
  on_environment, emit, validate_candidate, check_more_reductions, diagnose_failure,
  restore_last_known_good,
}

-- The call that `validate` makes of a permission.
abbrev pub candidate_event : Permission → KubeEvent
candidate_event p = record {
  api_group = p.api_group;
  resource = p.resource;
  verb = p.verb;
  namespace = p.namespace;
  resource_name = p.resource_name;
  workload_id = none;
}

-- The test of `validate`.
unfoldable pub is_constrained : Policy → Policy → Bool
is_constrained original candidate =
    all (λ e. is_authorized original e) (map candidate_event candidate.permissions)

-- `failure_type` in `verify`.
abbrev pub failure_type_of : FailureDescription → FailureType
failure_type_of failure = if failure.authorization_denial then rbac else unrelated

-- What `verify` keeps of a failure, or of none.
abbrev pub verified :
    WorkloadGraphState → VerificationResult → Option FailureDescription → WorkloadGraphState
verified state result none = record state {
  verification_result = some result;
  failure_details = none;
  failure_type = none;
  missing_permissions = some [];
  graph_node = "VERIFY";
}
verified state result (some failure) = record state {
  verification_result = some result;
  failure_details = some failure;
  failure_type = some (failure_type_of failure);
  missing_permissions = some failure.missing_events;
  graph_node = "VERIFY";
}

-- What `repair` leaves where it gives up.
abbrev pub unrepaired : WorkloadGraphState → WorkloadGraphState
unrepaired state = record state { failure_type = some unrecoverable; graph_node = "REPAIR_POLICY" }

-- What `repair` leaves where more permissions are restored.
abbrev pub retried : WorkloadGraphState → Policy → Policy → WorkloadGraphState
retried state candidate repaired = record state {
  candidate_policy = some repaired;
  candidate_risk = some (score_policy repaired);
  retry_count = state.retry_count + 1;
  incorrect_removals =
      state.incorrect_removals + (length repaired.permissions - length candidate.permissions);
  graph_node = "REPAIR_POLICY";
}

module _ {E : Type 0} (config : GraphConfig E) where
  open config use {adapter, explain, max_repair_iterations}

  abbrev Action : Type 0
  Action = Exec (World E) WorkloadGraphState

  unfoldable pub load_context : WorkloadGraphState → Action
  load_context state = do
    emit config state "orchestrator" "load_service_context"
        "loaded compact service-scoped context reference" none
    pure (record state { graph_node = "LOAD_SERVICE_CONTEXT" })

  unfoldable pub inspect : WorkloadGraphState → Action
  inspect state = do
    policy ← on_environment adapter.get_current_policy
    emit config state "inspector" "inspect" "resolved policy and deterministic risk" none
    pure (record state {
      original_policy = some policy;
      current_policy = some policy;
      last_known_good_policy = some policy;
      original_risk = some (score_policy policy);
      current_risk = some (score_policy policy);
      effective_permissions = some (effective_permission_count policy);
      namespace = some policy.service_account_namespace;
      service_account = some policy.service_account;
      graph_node = "INSPECT_RBAC";
    })

  unfoldable pub gather : WorkloadGraphState → Action
  gather state = do
    observed ← on_environment adapter.get_observed_usage
    emit config state "inspector" "gather_evidence"
        (concat ("gathered " ∷ show (length observed) ∷ " normalized Kubernetes calls" ∷ [])) none
    pure (record state { observed_events = some observed; graph_node = "GATHER_EVIDENCE" })

  unfoldable pub generate : WorkloadGraphState → Action
  generate state = do
    original ← lift (item "original_policy" state.original_policy)
    observed ← lift (item "observed_events" state.observed_events)
    candidate ← lift (observed_only_policy original observed)
    emit config state "reducer" "propose_policy"
        "narrowest supported policy for observed calls; verification still required" none
    pure (record state {
      candidate_policy = some candidate;
      candidate_risk = some (score_policy candidate);
      reductions_attempted = state.reductions_attempted + 1;
      graph_node = "GENERATE_CANDIDATE";
    })

  unfoldable pub validate : WorkloadGraphState → Action
  validate state = do
    candidate ← lift (item "candidate_policy" state.candidate_policy)
    original ← lift (item "original_policy" state.original_policy)
    lift (
        if not (is_constrained original candidate)
        then raise (value_error "candidate contains a capability absent from the original policy")
        else ok tt)
    emit config state "rules_engine" "validate_candidate"
        "candidate is normalized and constrained to original capabilities" none
    pure (record state { graph_node = "VALIDATE_CANDIDATE" })

  unfoldable pub apply : WorkloadGraphState → Action
  apply state = do
    candidate ← lift (item "candidate_policy" state.candidate_policy)
    on_environment (adapter.apply_policy candidate)
    emit config state "verifier" "apply_policy"
        "applied deterministic candidate in the controlled environment" none
    pure (record state { current_policy = some candidate; graph_node = "APPLY_CANDIDATE" })

  -- `None if result.passed else environment.describe_failure(result)`
  unfoldable pub failure_of : VerificationResult → Exec (World E) (Option FailureDescription)
  failure_of result =
      if result.passed
      then pure none
      else (do failure ← on_environment (adapter.describe_failure result); pure (some failure))

  unfoldable pub verify_node : WorkloadGraphState → Action
  unfolding failure_of
  verify_node state = do
    result ← on_environment adapter.verify_workload
    failure ← failure_of result
    emit config state "verifier" "verify"
        (concat (
          show result.tests_passed
          ∷ "/"
          ∷ show result.tests_total
          ∷ " verification tests passed"
          ∷ []))
        (some (if result.passed then "accept" else "diagnose"))
    pure (verified state result failure)

  unfoldable pub check_more : WorkloadGraphState → Action
  check_more state = do
    emit config state "orchestrator" "check_more_reductions"
        "observed-only candidate is already the narrowest supported candidate" (some "final_verify")
    pure (record state { graph_node = "CHECK_MORE_REDUCTIONS" })

  unfoldable pub final_verify_node : WorkloadGraphState → Action
  final_verify_node state = do
    emit config state "verifier" "final_verify"
        "declared verification passed for the retained candidate" (some "accept")
    pure (record state { accepted = true; failure_type = none; graph_node = "FINAL_VERIFY" })

  unfoldable pub diagnose : WorkloadGraphState → Action
  diagnose state = do
    failure ← lift (assert_some state.failure_details)
    emit config state "reasoner" "diagnose_failure" (explain failure).text (some "repair")
    pure (record state { graph_node = "DIAGNOSE_FAILURE" })

  -- What `repair` does with a policy that the verifier has repaired.
  unfoldable pub retry_with : WorkloadGraphState → FailureDescription → Policy → Policy → Action
  retry_with state failure candidate repaired =
      if leb (length repaired.permissions) (length candidate.permissions)
      then pure (unrepaired state)
      else (do
        emit config state "verifier" "repair_policy"
            "restored only denied capabilities allowed by the original policy" (some "retry")
        pure (retried state candidate repaired))

  -- The `try` of `repair`, whose handler takes a `ValueError` alone.
  unfoldable pub after_repair :
      WorkloadGraphState → FailureDescription → Policy → Result Policy → Action
  unfolding retry_with
  after_repair state failure candidate (ok repaired) = retry_with state failure candidate repaired
  after_repair state failure candidate (raise (value_error message)) = pure (unrepaired state)
  after_repair state failure candidate (raise e) = lift (raise e)

  unfoldable pub repair_node : WorkloadGraphState → Action
  repair_node state = do
    failure ← lift (assert_some state.failure_details)
    candidate ← lift (item "candidate_policy" state.candidate_policy)
    original ← lift (item "original_policy" state.original_policy)
    after_repair state failure candidate (repair candidate failure original)

  unfoldable pub restore : WorkloadGraphState → Action
  restore state = do
    on_environment adapter.restore_policy
    emit config state "orchestrator" "restore_policy" "candidate did not pass declared verification"
        (some "reject")
    good ← lift (item "last_known_good_policy" state.last_known_good_policy)
    pure (record state {
      current_policy = some good;
      accepted = false;
      reductions_rejected = state.reductions_rejected + 1;
      graph_node = "RESTORE_LAST_KNOWN_GOOD";
    })

  unfoldable pub human_review_node : WorkloadGraphState → Action
  human_review_node state = do
    emit config state "orchestrator" "human_review"
        "automatic repair was unsafe or exhausted; original policy restored" (some "review")
    pure (record state { graph_node = "HUMAN_REVIEW" })

  unfoldable pub finalize : WorkloadGraphState → Action
  finalize state = do
    policy ← lift (item "current_policy" state.current_policy)
    emit config state "orchestrator" "finalize"
        (if state.accepted
          then "verified candidate retained"
          else "last-known-good policy retained")
        (some (if state.accepted then "accept" else "reject"))
    pure (record state {
      current_risk = some (score_policy policy);
      reductions_accepted = if state.accepted then 1 else 0;
      graph_node = "FINALIZE_WORKLOAD";
    })

  unfoldable pub publish_result : WorkloadGraphState → Action
  publish_result state = do
    emit config state "orchestrator" "publish_result_event"
        "durable worker may now publish the result and acknowledge its task" none
    pure (record state { graph_node = "PUBLISH_RESULT_EVENT" })

-- `state.get("failure_type") == "rbac"`
abbrev pub is_rbac : Option FailureType → Bool
is_rbac none = false
is_rbac (some rbac) = true
is_rbac (some unrelated) = false
is_rbac (some unrecoverable) = false

abbrev pub is_unrecoverable : Option FailureType → Bool
is_unrecoverable none = false
is_unrecoverable (some rbac) = false
is_unrecoverable (some unrelated) = false
is_unrecoverable (some unrecoverable) = true

-- `route_verification`, of the verification that the state holds.
unfoldable pub route_result : ℕ → WorkloadGraphState → VerificationResult → Node
route_result max_repair_iterations state result =
    if result.passed
    then check_more_reductions
    else if is_rbac state.failure_type && ltb state.retry_count max_repair_iterations
    then diagnose_failure
    else restore_last_known_good

unfoldable pub route_verification : ℕ → WorkloadGraphState → Result Node
unfolding route_result
route_verification max_repair_iterations state =
    map_ok (route_result max_repair_iterations state)
      (item "verification_result" state.verification_result)

unfoldable pub route_repair : WorkloadGraphState → Node
route_repair state =
    if is_unrecoverable state.failure_type then restore_last_known_good else validate_candidate
