-- ===== src/Agent/Workload/Run.antt =====
-- The compiled graph and `WorkloadOptimizationGraph.run`.
use kuber.Base.{ℕ, zero, suc, String, Bool, false, Option, none, some, [], if◌then◌else◌}
use kuber.Base.Result.{Result, ok, raise, map_ok, recursion_limit_reached}
use kuber.Base.Text.{or_else}
use kuber.Models.Policy.{Policy}
use kuber.Risk.Scorer.{RiskAssessment, score_policy}
use kuber.Agent.Environment.{VerificationResult}
use kuber.Agent.Exec.{Exec, pure, lift, item, ◌>>=◌}
use kuber.Agent.Workload.{
  WorkloadGraphState, Node, World, GraphConfig, load_service_context, inspect_rbac, gather_evidence,
  generate_candidate, validate_candidate, apply_candidate, verify, check_more_reductions,
  final_verify, diagnose_failure, repair_policy, restore_last_known_good, human_review,
  finalize_workload, publish_result_event,
}
use kuber.Agent.Workload.Nodes.{
  load_context, inspect, gather, generate, validate, apply, verify_node, check_more,
  final_verify_node, diagnose, repair_node, restore, human_review_node, finalize, publish_result,
  route_verification, route_repair,
}

pub record WorkloadExecution : Type 0 where
  pub run_id : String
  pub accepted : Bool
  pub original_policy : Policy
  pub final_policy : Policy
  pub original_risk : RiskAssessment
  pub final_risk : RiskAssessment
  pub verification : VerificationResult
  pub repair_iterations : ℕ
  pub incorrect_removals : ℕ

-- The dict `nodes`.
abbrev pub node_function :
    {E : Type 0} → GraphConfig E → Node → WorkloadGraphState → Exec (World E) WorkloadGraphState
node_function config load_service_context = load_context config
node_function config inspect_rbac = inspect config
node_function config gather_evidence = gather config
node_function config generate_candidate = generate config
node_function config validate_candidate = validate config
node_function config apply_candidate = apply config
node_function config verify = verify_node config
node_function config check_more_reductions = check_more config
node_function config final_verify = final_verify_node config
node_function config diagnose_failure = diagnose config
node_function config repair_policy = repair_node config
node_function config restore_last_known_good = restore config
node_function config human_review = human_review_node config
node_function config finalize_workload = finalize config
node_function config publish_result_event = publish_result config

-- The edges, where `none` is `END`.
abbrev pub edge : ℕ → Node → WorkloadGraphState → Result (Option Node)
edge n load_service_context state = ok (some inspect_rbac)
edge n inspect_rbac state = ok (some gather_evidence)
edge n gather_evidence state = ok (some generate_candidate)
edge n generate_candidate state = ok (some validate_candidate)
edge n validate_candidate state = ok (some apply_candidate)
edge n apply_candidate state = ok (some verify)
edge n verify state = map_ok some (route_verification n state)
edge n check_more_reductions state = ok (some final_verify)
edge n final_verify state = ok (some finalize_workload)
edge n diagnose_failure state = ok (some repair_policy)
edge n repair_policy state = ok (some (route_repair state))
edge n restore_last_known_good state = ok (some human_review)
edge n human_review state = ok (some finalize_workload)
edge n finalize_workload state = ok (some publish_result_event)
edge n publish_result_event state = ok none

module _ {E : Type 0} (config : GraphConfig E) where
  -- One step: the node's function, then the choice of the next node.
  unfoldable pub step :
      Node → WorkloadGraphState → Exec (World E) (Option Node × WorkloadGraphState)
  step node state = do
    after ← node_function config node state
    next ← lift (edge config.max_repair_iterations node after)
    pure (next, after)

  -- `graph.invoke`, which raises where a node is left to run after `limit` steps.
  unfoldable pub invoke : ℕ → Option Node → WorkloadGraphState → Exec (World E) WorkloadGraphState
  invoke limit none state = pure state
  invoke zero (some node) state = lift (raise recursion_limit_reached)
  invoke (suc limit) (some node) state = do (next, after) ← step node state; invoke limit next after

-- What `run` gives the graph.
abbrev pub initial_state : String → String → String → String → String → WorkloadGraphState
initial_state run_id task_id identifier context_ref repository_ref = record {
  run_id = run_id;
  task_id = task_id;
  workload_id = identifier;
  service_name = identifier;
  context_ref = context_ref;
  repository_ref = repository_ref;
  retry_count = 0;
  incorrect_removals = 0;
  reductions_attempted = 0;
  reductions_accepted = 0;
  reductions_rejected = 0;
  accepted = false;
  graph_node = "START";
  namespace = none;
  service_account = none;
  original_policy = none;
  current_policy = none;
  candidate_policy = none;
  last_known_good_policy = none;
  effective_permissions = none;
  observed_events = none;
  original_risk = none;
  current_risk = none;
  candidate_risk = none;
  verification_result = none;
  failure_type = none;
  failure_details = none;
  missing_permissions = none;
}

-- `value or default`, of an argument that may be `None`.
abbrev pub or_given : Option String → String → String
or_given none default = default
or_given (some value) default = or_else value default

module _ {E : Type 0} (config : GraphConfig E) where
  -- What `run` makes of the final state.
  unfoldable pub execution : String → WorkloadGraphState → Exec (World E) WorkloadExecution
  execution run_id final = do
    original ← lift (item "original_policy" final.original_policy)
    policy ←
        lift (if final.accepted then item "current_policy" final.current_policy else ok original)
    risk ← lift (item "original_risk" final.original_risk)
    result ← lift (item "verification_result" final.verification_result)
    pure (record {
      run_id = run_id;
      accepted = final.accepted;
      original_policy = original;
      final_policy = policy;
      original_risk = risk;
      final_risk = score_policy policy;
      verification = result;
      repair_iterations = final.retry_count;
      incorrect_removals = final.incorrect_removals;
    })

  unfoldable pub run_in : ℕ → String → WorkloadGraphState → Exec (World E) WorkloadExecution
  unfolding invoke execution
  run_in limit run_id initial = do
    final ← invoke config limit (some load_service_context) initial
    execution run_id final

  -- `run`, on an environment and an empty recorder.
  unfoldable pub run :
      ℕ → String → Option String → Option String → String → String → Exec E WorkloadExecution
  unfolding run_in
  run limit run_id task_id workload_id context_ref repository_ref environment =
      let identifier = or_given workload_id (config.adapter.name environment) in
      let initial =
        initial_state run_id (or_given task_id run_id) identifier context_ref repository_ref in
      let (result, world) =
        run_in limit run_id initial (record { environment = environment; events = [] }) in
      (result, world.environment)
