-- ===== src/Tests/Benchmark.antt =====
-- The benchmark run on the sample case: the observed call is not enough, and one repair is.
use kuber.Base.{inr, ◌≡◌, refl, sym, subst, ◌↔◌, true, none, [], ◌∷◌, Memᴰ, arith}
use kuber.Base.Dict.{get}
use kuber.Base.Result.{ok}
use kuber.Models.Event.{KubeEvent}
use kuber.Rbac.Authorization.{matches, is_authorized, authorize}
use kuber.Rbac.Canonicalizer.{is_supported_resource, resources_of}
use kuber.Minimizer.Reducer.Observed.{IsUsable}
use kuber.Agent.Exec.{Post}
use kuber.Agent.Workload.Run.{WorkloadExecution, run}
use kuber.Agent.Workload.Outcome.{Outcome, run-Outcome}
use kuber.Judge.Simulator.{simulate, simulator, verify_result}
use kuber.Judge.Simulator.Verify.{IsTestCall, verify_result-passed_iff}
use kuber.Judge.Simulator.Runs
use kuber.Judge.Simulator.Benchmark.{
  benchmark_run, CaseOutcome, benchmark_run-Outcome, benchmark_run-returns,
  benchmark_run-no_escalation, benchmark_run-accepted, benchmark_run-accepted_iff,
}
use kuber.Samples.{get_pod, get_config, initial, case, explain}

usable : (e : KubeEvent) → Memᴰ e (get_pod ∷ []) → IsUsable initial e
unfolding is_authorized authorize matches is_supported_resource resources_of get
usable e (Memᴰ.head same) =
    subst (IsUsable initial) (sym same)
      (record { authorized = refl; supported = record { verb = refl; resource = refl } })
usable e (Memᴰ.tail m) = elim m [ ]

config-IsUsable : IsUsable initial get_config
unfolding is_authorized authorize matches is_supported_resource resources_of get
config-IsUsable = record { authorized = refl; supported = record { verb = refl; resource = refl } }

both-IsUsable : (e : KubeEvent) → Memᴰ e (get_pod ∷ get_config ∷ []) → IsUsable initial e
both-IsUsable e (Memᴰ.head same) = usable e (Memᴰ.head same)
both-IsUsable e (Memᴰ.tail (Memᴰ.head same)) = subst (IsUsable initial) (sym same) config-IsUsable
both-IsUsable e (Memᴰ.tail (Memᴰ.tail m)) = elim m [ ]

tests-IsUsable : (e : KubeEvent) → IsTestCall case.verification_tests e → IsUsable initial e
tests-IsUsable e (test, Memᴰ.head same, m) = usable e (subst (λ t. Memᴰ e t.events) same m)
tests-IsUsable e (test, Memᴰ.tail (Memᴰ.head same), m) =
    both-IsUsable e (subst (λ t. Memᴰ e t.events) same m)
tests-IsUsable e (test, Memᴰ.tail (Memᴰ.tail n), m) = elim n [ ]

-- The run of the sample, with at most one repair and as many steps as that needs.
returned :
    (x : WorkloadExecution) × ((benchmark_run explain 1 16 case "run-1").0 ≡ ok x)
    × CaseOutcome explain 1 16 case "run-1" x (benchmark_run explain 1 16 case "run-1").1
returned = benchmark_run-returns explain 1 16 case "run-1" (omega arith) usable

benchmark_run-returns_example :
    (x : WorkloadExecution) × ((benchmark_run explain 1 16 case "run-1").0 ≡ ok x)
    × CaseOutcome explain 1 16 case "run-1" x (benchmark_run explain 1 16 case "run-1").1
benchmark_run-returns_example = benchmark_run-returns explain 1 16 case "run-1" (omega arith) usable

is_accepted : returned.0.accepted ≡ true
is_accepted =
    (benchmark_run-accepted_iff explain 1 16 case "run-1" returned.0 (omega arith) (omega arith)
        returned.1 (λ e is_test. (tests-IsUsable e is_test).supported)).1
      (λ e is_test. (tests-IsUsable e is_test).authorized)

config_test : IsTestCall case.verification_tests get_config
config_test = (
  record { name = "settings"; events = get_pod ∷ get_config ∷ [] },
  Memᴰ.tail (Memᴰ.head refl),
  Memᴰ.tail (Memᴰ.head refl),
)

config_allowed : is_authorized returned.0.final_policy get_config ≡ true
config_allowed =
    benchmark_run-accepted explain 1 16 case "run-1" returned.0 get_config (omega arith) returned.1
      is_accepted config_test

benchmark_run-no_escalation_example : is_authorized initial get_config ≡ true
benchmark_run-no_escalation_example =
    benchmark_run-no_escalation explain 1 16 case "run-1" returned.0 get_config (omega arith)
      returned.1 config_allowed

benchmark_run-Outcome_example :
    Post
      (CaseOutcome explain 1 16 case "run-1")
      (Runs.Holds case initial)
      (benchmark_run explain 1 16 case "run-1")
benchmark_run-Outcome_example = benchmark_run-Outcome explain 1 16 case "run-1" (omega arith)

run-Outcome_example :
    Post
      (Outcome 1 initial (Runs.Holds case) (Runs.Reports case) (Runs.Sees case))
      (λ env. ⊥)
      (run
        (record { adapter = simulator; explain = explain; max_repair_iterations = 1 })
        16
        "run-1"
        none
        none
        ""
        ""
        (simulate case))
run-Outcome_example =
    run-Outcome (record { adapter = simulator; explain = explain; max_repair_iterations = 1 })
      initial (Runs.Holds case) (λ env. ⊥) (Runs.Reports case) (Runs.Sees case)
      (Runs.simulator-Contract case (λ env. ⊥) (inr usable)) 16 "run-1" none none "" ""
      (simulate case) (omega arith) refl

verify_result-passed_iff_example : ((verify_result (simulate case)).passed ≡ true) ↔ (
    (call : KubeEvent)
    → IsTestCall case.verification_tests call
    → is_authorized initial call ≡ true)
verify_result-passed_iff_example = verify_result-passed_iff (simulate case)

benchmark_run-accepted_iff_example : (returned.0.accepted ≡ true) ↔ (
    (call : KubeEvent)
    → IsTestCall case.verification_tests call
    → is_authorized case.initial_policy call ≡ true)
benchmark_run-accepted_iff_example =
    benchmark_run-accepted_iff explain 1 16 case "run-1" returned.0 (omega arith) (omega arith)
      returned.1 (λ e is_test. (tests-IsUsable e is_test).supported)
