-- ===== src/Judge/Simulator/Benchmark.antt =====
-- A benchmark run: `WorkloadOptimizationGraph.run` on the simulated environment of a case.
use mathlib.Core.Bool.{false≢true}
use kuber.Base.{
  ℕ, ◌+◌, ◌*◌, ◌≤◌, ◌≡◌, refl, sym, ap, subst, ◌∙◌, ◌⊎◌, inl, inr, true, none, String, ◌↔◌,
}
use kuber.Base.Result.{Result, ok}
use kuber.Models.Event.{KubeEvent}
use kuber.Rbac.Authorization.{is_authorized}
use kuber.Minimizer.Reducer.Permits.{IsSupported}
use kuber.Agent.Exec.{Post, Post-returned, Post-returns}
use kuber.Agent.Workload.{GraphConfig, Explanation}
use kuber.Agent.Environment.{FailureDescription}
use kuber.Agent.Workload.Run.{run, WorkloadExecution}
use kuber.Agent.Workload.Candidate.{IsCandidate-no_escalation}
use kuber.Agent.Workload.Outcome.{Outcome, run-Outcome}
use kuber.Judge.Simulator.{BenchmarkCase, SimulatorEnvironment, simulate, simulator}
use kuber.Judge.Simulator.Verify.{IsTestCall, verify_result-passed_iff}
use kuber.Judge.Simulator.Runs
use kuber.Judge.Simulator.Repairs.{never_stuck}

-- A limit on the steps that is enough.
abbrev pub enough_steps : ℕ → ℕ
enough_steps max_repair_iterations = 11 + 5 * max_repair_iterations

module _ (explain : FailureDescription → Explanation) (max_repair_iterations limit : ℕ)
    (case : BenchmarkCase) (run_id : String) where
  abbrev config : GraphConfig SimulatorEnvironment
  config = record {
    adapter = simulator;
    explain = explain;
    max_repair_iterations = max_repair_iterations;
  }

  -- `run(SimulatorEnvironment(case), run_id=run_id)`
  abbrev pub benchmark_run : Result WorkloadExecution × SimulatorEnvironment
  benchmark_run = run config limit run_id none none "" "" (simulate case)

  abbrev pub CaseOutcome : WorkloadExecution → SimulatorEnvironment → Type 0
  CaseOutcome =
      Outcome max_repair_iterations case.initial_policy (Runs.Holds case) (Runs.Reports case)
        (Runs.Sees case)

  outcome_where :
      (Failed : SimulatorEnvironment → Type 0)
      → enough_steps max_repair_iterations ≤ limit
      → ((env : SimulatorEnvironment) → Runs.Holds case case.initial_policy env → Failed env)
        ⊎ Runs.AllUsable case case.observed_events
      → Post CaseOutcome Failed benchmark_run
  outcome_where Failed enough usable =
      run-Outcome config case.initial_policy (Runs.Holds case) Failed (Runs.Reports case)
        (Runs.Sees case) (Runs.simulator-Contract case Failed usable) limit run_id none none "" ""
        (simulate case) enough refl

  -- Where the step limit is at least eleven and five for each allowed repair: a run on the
  -- simulated case that raises leaves the initial policy in force, and one that returns
  -- leaves its final policy in force, which passed the last verification or is the initial
  -- one.
  pub benchmark_run-Outcome :
      enough_steps max_repair_iterations ≤ limit
      → Post CaseOutcome (Runs.Holds case case.initial_policy) benchmark_run
  benchmark_run-Outcome enough =
      outcome_where (Runs.Holds case case.initial_policy) enough (inl (λ env holds. holds))

  -- Where the step limit is at least eleven and five for each allowed repair, the initial
  -- policy allows every observed call and the code supports each, the run of the workload
  -- graph on the simulated case returns an execution, with the outcome of the general
  -- theorem.
  pub benchmark_run-returns :
      enough_steps max_repair_iterations ≤ limit
      → Runs.AllUsable case case.observed_events
      → (x : WorkloadExecution) × (benchmark_run.0 ≡ ok x) × CaseOutcome x benchmark_run.1
  benchmark_run-returns enough usable =
      Post-returns CaseOutcome benchmark_run (outcome_where (λ env. ⊥) enough (inr usable))

  outcome_of :
      (x : WorkloadExecution)
      → enough_steps max_repair_iterations ≤ limit
      → benchmark_run.0 ≡ ok x
      → CaseOutcome x benchmark_run.1
  outcome_of x enough returns =
      Post-returned CaseOutcome (Runs.Holds case case.initial_policy) benchmark_run
        (benchmark_run-Outcome enough) returns

  -- No escalation: where the step limit is at least eleven and five for each allowed repair
  -- and the run returns, its final policy allows no call that the initial policy does not
  -- allow.
  pub benchmark_run-no_escalation :
      (x : WorkloadExecution) (call : KubeEvent)
      → enough_steps max_repair_iterations ≤ limit
      → benchmark_run.0 ≡ ok x
      → is_authorized x.final_policy call ≡ true
      → is_authorized case.initial_policy call ≡ true
  benchmark_run-no_escalation x call enough returns allowed =
      elim (outcome_of x enough returns).decided [
        | inl (accepted, passed, valid, reports) ↦
            IsCandidate-no_escalation case.initial_policy x.final_policy call valid allowed
        | inr (rejected, same, why) ↦ subst (λ p. is_authorized p call ≡ true) same allowed
      ]

  -- Where the step limit is at least eleven and five for each allowed repair, and the run
  -- returns and is accepted, its final policy allows every call of every verification test.
  pub benchmark_run-accepted :
      (x : WorkloadExecution) (call : KubeEvent)
      → enough_steps max_repair_iterations ≤ limit
      → benchmark_run.0 ≡ ok x
      → x.accepted ≡ true
      → IsTestCall case.verification_tests call
      → is_authorized x.final_policy call ≡ true
  benchmark_run-accepted x call enough returns accepted is_test =
      elim (outcome_of x enough returns).decided [
        | inl (_, passed, valid, reports) ↦
            (verify_result-passed_iff (Runs.with_policy case x.final_policy)).0
              (sym (ap (λ r. r.passed) reports) ∙ passed) call is_test
        | inr (rejected, same, why) ↦ absurd (false≢true (sym rejected ∙ accepted))
      ]

  -- Where the step limit is at least eleven and five for each allowed repair, one repair is
  -- allowed, the code supports every test call, and the run of the workload graph on the
  -- simulated case returns: it is accepted exactly when the initial policy allows every call
  -- of every verification test.
  pub benchmark_run-accepted_iff :
      (x : WorkloadExecution)
      → enough_steps max_repair_iterations ≤ limit
      → 1 ≤ max_repair_iterations
      → benchmark_run.0 ≡ ok x
      → ((call : KubeEvent) → IsTestCall case.verification_tests call → IsSupported call)
      → (x.accepted ≡ true) ↔ (
          (call : KubeEvent)
          → IsTestCall case.verification_tests call
          → is_authorized case.initial_policy call ≡ true)
  benchmark_run-accepted_iff x enough positive returns supported = (
    λ accepted call is_test.
        benchmark_run-no_escalation x call enough returns
          (benchmark_run-accepted x call enough returns accepted is_test),
    λ allowed. elim (outcome_of x enough returns).decided [
      | inl (accepted, passed, valid, reports) ↦ accepted
      | inr (rejected, same, why) ↦ absurd (
          never_stuck case
            (λ call is_test. record {
              authorized = allowed call is_test;
              supported = supported call is_test;
            })
            max_repair_iterations x.repair_iterations positive why)
    ],
  )
