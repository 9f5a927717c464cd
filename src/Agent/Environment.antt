-- ===== src/Agent/Environment.antt =====
-- agent_layer/interfaces/environment.py: what a verification reports, and the operations that the
-- agents use of an environment. The measured duration, which only reports read, is left out.
use kuber.Base.{ℕ, String, Bool, List}
use kuber.Models.Event.{KubeEvent}
use kuber.Models.Policy.{Policy}
use kuber.Agent.Exec.{Exec}

pub record VerificationResult : Type 0 where
  pub passed : Bool
  pub tests_passed : ℕ
  pub tests_total : ℕ
  pub denied_events : List KubeEvent
  pub stdout : String
  pub stderr : String

pub record FailureDescription : Type 0 where
  pub summary : String
  pub missing_events : List KubeEvent
  pub authorization_denial : Bool

-- The protocol, over the environment's own state `E`; each operation may change it or raise.
pub record EnvironmentAdapter (E : Type 0) : Type 0 where
  pub name : E → String
  pub get_current_policy : Exec E Policy
  pub get_observed_usage : Exec E (List KubeEvent)
  pub apply_policy : Policy → Exec E (Unit {0})
  pub verify_workload : Exec E VerificationResult
  pub restore_policy : Exec E (Unit {0})
  pub describe_failure : VerificationResult → Exec E FailureDescription
