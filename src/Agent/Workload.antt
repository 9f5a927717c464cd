-- ===== src/Agent/Workload.antt =====
-- agent_layer/graphs/state.py and workload.py: the state of the workload graph, its nodes, and the
-- world that they change.
pub mod Nodes
pub mod Run
pub mod Candidate
pub mod Contract
pub mod Progress
pub mod Outcome
use kuber.Base.{ℕ, String, Bool, Option, none, some, List, [], ◌∷◌, ◌++◌}
use kuber.Base.Result.{Result}
use kuber.Models.Event.{KubeEvent}
use kuber.Models.Policy.{Policy}
use kuber.Risk.Scorer.{RiskAssessment}
use kuber.Agent.Environment.{EnvironmentAdapter, FailureDescription, VerificationResult}
use kuber.Agent.Exec.{Exec, continue}

pub data FailureType : Type 0 where
  rbac unrelated unrecoverable : FailureType

-- `WorkloadGraphState`, a dict of which `run` sets the first part and the nodes the rest. A field
-- that no node writes (`deployment_name`, `source_evidence`, `trajectory_ref`) is left out.
pub record WorkloadGraphState : Type 0 where
  pub run_id : String
  pub task_id : String
  pub workload_id : String
  pub service_name : String
  pub context_ref : String
  pub repository_ref : String
  pub retry_count : ℕ
  pub incorrect_removals : ℕ
  pub reductions_attempted : ℕ
  pub reductions_accepted : ℕ
  pub reductions_rejected : ℕ
  pub accepted : Bool
  pub graph_node : String
  pub namespace : Option String
  pub service_account : Option String
  pub original_policy : Option Policy
  pub current_policy : Option Policy
  pub candidate_policy : Option Policy
  pub last_known_good_policy : Option Policy
  pub effective_permissions : Option ℕ
  pub observed_events : Option (List KubeEvent)
  pub original_risk : Option RiskAssessment
  pub current_risk : Option RiskAssessment
  pub candidate_risk : Option RiskAssessment
  pub verification_result : Option VerificationResult
  pub failure_type : Option FailureType
  pub failure_details : Option FailureDescription
  pub missing_permissions : Option (List KubeEvent)

-- The nodes that `_build` adds.
pub data Node : Type 0 where
  load_service_context inspect_rbac gather_evidence generate_candidate validate_candidate : Node
  apply_candidate verify check_more_reductions final_verify diagnose_failure repair_policy : Node
  restore_last_known_good human_review finalize_workload publish_result_event : Node

-- agent_layer/trajectory/models.py, less the details and the time, which only reports read.
pub record TrajectoryEvent : Type 0 where
  pub run_id : String
  pub environment : String
  pub agent : String
  pub action : String
  pub reason : String
  pub decision : Option String
  pub retry_count : ℕ

-- The environment, and the events that the recorder holds.
pub record World (E : Type 0) : Type 0 where
  pub environment : E
  pub events : List TrajectoryEvent

-- What `FailureReasoner.explain_with_source` answers, of the reasoner that the graph is given.
pub record Explanation : Type 0 where
  pub text : String
  pub source : String

pub record GraphConfig (E : Type 0) : Type 0 where
  pub adapter : EnvironmentAdapter E
  pub explain : FailureDescription → Explanation
  pub max_repair_iterations : ℕ

-- An operation of the environment, in the world.
abbrev pub in_world : {E A : Type 0} → World E → Result A × E → Result A × World E
in_world w (r, e) = (r, record w { environment = e })

abbrev pub on_environment : {E A : Type 0} → Exec E A → Exec (World E) A
on_environment m w = in_world w (m w.environment)

-- `emit`
abbrev pub emit :
    {E : Type 0}
    → GraphConfig E
    → WorkloadGraphState
    → String
    → String
    → String
    → Option String
    → Exec (World E) (Unit {0})
emit config state agent action reason decision w = (
  Result.ok tt,
  record w {
    events =
        w.events
        ++ record {
          run_id = state.run_id;
          environment = config.adapter.name w.environment;
          agent = agent;
          action = action;
          reason = reason;
          decision = decision;
          retry_count = state.retry_count;
        }
          ∷ [];
  },
)
