-- ===== src/Judge/Simulator.antt =====
-- judge_layer/simulator/environment.py, and the benchmark case of workload_runner.py: the
-- environment that decides a workload's calls by the policy alone.
pub mod Verify
pub mod Runs
pub mod Repairs
pub mod Benchmark
use kuber.Base.{
  ℕ, suc, ◌+◌, String, Bool, true, false, not, Option, List, [], ◌∷◌, ◌++◌, map, if◌then◌else◌,
}
use kuber.Base.Lists.{length, filter}
use kuber.Base.Text.{concat, join, show, or_else}
use kuber.Base.Dict.Unique.{unique}
use kuber.Base.Result.{Result, ok}
use kuber.Models.Event.{KubeEvent, display, event_eq}
use kuber.Models.Policy.{Policy}
use kuber.Rbac.Authorization.{is_authorized}
use kuber.Agent.Environment.{VerificationResult, FailureDescription, EnvironmentAdapter}
use kuber.Agent.Exec.{Exec, pure}
use kuber.Agent.Verifier.{is_empty}

pub record VerificationTest : Type 0 where
  pub name : String
  pub events : List KubeEvent

pub record BenchmarkCase : Type 0 where
  pub identifier : String
  pub name : String
  pub description : String
  pub initial_policy : Policy
  pub observed_events : List KubeEvent
  pub verification_tests : List VerificationTest
  pub expected_policy : Option Policy

pub record SimulatorEnvironment : Type 0 where
  pub case : BenchmarkCase
  pub original_policy : Policy
  pub current_policy : Policy

-- `__init__`
abbrev pub simulate : BenchmarkCase → SimulatorEnvironment
simulate case = record {
  case = case;
  original_policy = case.initial_policy;
  current_policy = case.initial_policy;
}

abbrev pub test_denials : Policy → VerificationTest → List KubeEvent
test_denials policy test = filter (λ event. not (is_authorized policy event)) test.events

-- The loop of `verify_workload`: the denied calls, and how many tests pass.
abbrev pub denied_calls : Policy → List VerificationTest → List KubeEvent
denied_calls policy [] = []
denied_calls policy (test ∷ rest) = test_denials policy test ++ denied_calls policy rest

abbrev pub tests_passing : Policy → List VerificationTest → ℕ
tests_passing policy [] = 0
tests_passing policy (test ∷ rest) =
    if is_empty (test_denials policy test)
    then suc (tests_passing policy rest)
    else tests_passing policy rest

unfoldable pub verify_result : SimulatorEnvironment → VerificationResult
verify_result env =
    let tests = env.case.verification_tests in
    let denied = denied_calls env.current_policy tests in
    let unique_denied = unique (λ event. event) denied in
    record {
      passed = is_empty denied;
      tests_passed = tests_passing env.current_policy tests;
      tests_total = length tests;
      denied_events = unique_denied;
      stdout = "";
      stderr =
          join "\n" (map (λ event. concat ("403 Forbidden: " ∷ display event ∷ [])) unique_denied);
    }

unfoldable pub describe : VerificationResult → FailureDescription
describe result =
    if not (is_empty result.denied_events)
    then record {
      summary = concat (
          show (length result.denied_events) ∷ " required API capability/capabilities denied" ∷ []);
      missing_events = result.denied_events;
      authorization_denial = true;
    }
    else record {
      summary = or_else result.stderr "verification failed without an RBAC denial";
      missing_events = [];
      authorization_denial = false;
    }

-- The class, as an environment of the agents.
unfoldable pub simulator : EnvironmentAdapter SimulatorEnvironment
unfolding verify_result describe
simulator = record {
  name = λ env. concat ("simulator:" ∷ env.case.identifier ∷ []);
  get_current_policy = λ env. pure env.current_policy env;
  get_observed_usage = λ env. pure env.case.observed_events env;
  apply_policy = λ policy env. (ok tt, record env { current_policy = policy });
  verify_workload = λ env. pure (verify_result env) env;
  restore_policy = λ env. (ok tt, record env { current_policy = env.original_policy });
  describe_failure = λ result. pure (describe result);
}
