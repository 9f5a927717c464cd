-- ===== src/Agent/Workload/Progress/Steps.antt =====
-- Each node of the workload graph, run where it is ready: the next one is ready, with fewer steps
-- left, or an operation of the environment raised.
use kuber.Base.{ℕ, ◌<◌, ◌≡◌, refl, sym, ap, ◌∙◌, ◌⊎◌, inl, inr, Option, some, List, Memᴰ, arith}
use kuber.Base.Result.{Error, ok, raise, Result-cases, raise≢ok}
use kuber.Models.Event.{KubeEvent}
use kuber.Models.Policy.{Policy}
use kuber.Risk.Scorer.{score_policy}
use kuber.Minimizer.Reducer.{observed_only_policy}
use kuber.Minimizer.Reducer.Observed.{IsUsable, observed_only-eq-ok}
use kuber.Agent.Environment.{FailureDescription, VerificationResult}
use kuber.Agent.Exec.{Post, Post-cases, item_of}
use kuber.Agent.Workload.{
  WorkloadGraphState, Node, World, GraphConfig, load_service_context, inspect_rbac, gather_evidence,
  generate_candidate, validate_candidate, apply_candidate, check_more_reductions, final_verify,
  restore_last_known_good, human_review, finalize_workload, publish_result_event,
}
use kuber.Agent.Workload.Nodes.{
  load_context, inspect, gather, generate, validate, apply, check_more, final_verify_node, restore,
  human_review_node, finalize, publish_result,
}
use kuber.Agent.Workload.Run.{step}
use kuber.Agent.Workload.Candidate.{
  IsCandidate, observed_only-IsCandidate, IsCandidate-is_constrained,
}
use kuber.Agent.Workload.Contract.{Contract}
use kuber.Agent.Workload.Progress

module _ {E : Type 0} (config : GraphConfig E) (original : Policy) (Holds : Policy → E → Type 0)
    (Failed : E → Type 0) (Reports : Policy → VerificationResult → Type 0)
    (Sees : Policy → FailureDescription → Type 0)
    (contract : Contract config.adapter original Holds Failed Reports Sees) where
  abbrev pub max : ℕ
  max = config.max_repair_iterations

  abbrev pub Broken : World E → Type 0
  Broken w = Failed w.environment

  -- What a step leads to.
  abbrev pub Progressed :
      Node → WorkloadGraphState → Option Node × WorkloadGraphState → World E → Type 0
  Progressed node before (next, after) w =
      Progress.ReadyNext max original Holds Failed Reports Sees next (Progress.facts after)
        w.environment
      × (Progress.steps_next max next (Progress.facts after)
          < Progress.steps_left max node (Progress.facts before))

  abbrev pub StepOf : Node → Type 0
  StepOf node =
      (state : WorkloadGraphState) (w : World E)
      → Progress.Ready max original Holds Failed Reports Sees node (Progress.facts state)
          w.environment
      → Post (Progressed node state) Broken (step config node state w)

  pub step-load : StepOf load_service_context
  unfolding step load_context
  step-load state w ready = (ready, omega arith)

  pub step-inspect : StepOf inspect_rbac
  unfolding step inspect
  step-inspect state w (first, holds) =
      elim (Post-cases (config.adapter.get_current_policy w.environment)
        (contract.reads w.environment holds)) [
          | inl (p, e, reads, (same, now)) ↦ rw reads (
            (
              record {
                original_is = ap some same;
                good_is = ap some same;
                risk_is = ap (λ q. some (score_policy q)) same;
                retries = omega (arith, first);
              },
              first,
              now,
            ),
            omega arith,
          )
          | inr (x, e, reads, failed) ↦ rw reads failed
        ]

  pub step-gather : StepOf gather_evidence
  unfolding step gather
  step-gather state w (inspected, first, holds) =
      elim (Post-cases (config.adapter.get_observed_usage w.environment)
        (contract.observes w.environment holds)) [
          | inl (calls, e, observes, (usable, now)) ↦ rw observes (
            record {
              inspected = inspected;
              first = first;
              holds = now;
              calls = calls;
              calls_are = refl;
              usable = usable;
            },
            omega arith,
          )
          | inr (x, e, observes, failed) ↦ rw observes failed
        ]

  generated :
      (calls : List KubeEvent) (e : E)
      → Failed e ⊎ ((call : KubeEvent) → Memᴰ call calls → IsUsable original call)
      → ((c : Policy) × (observed_only_policy original calls ≡ ok c) × IsCandidate original c)
        ⊎ ((x : Error) × (observed_only_policy original calls ≡ raise x) × Failed e)
  generated calls e usable = elim (Result-cases (observed_only_policy original calls)) [
    | inl (c, same) ↦ inl (c, same, observed_only-IsCandidate original calls same)
    | inr (x, same) ↦ elim usable [
      | inl failed ↦ inr (x, same, failed)
      | inr all_usable ↦
          absurd (raise≢ok (sym same ∙ observed_only-eq-ok original calls all_usable))
    ]
  ]

  pub step-generate : StepOf generate_candidate
  unfolding step generate
  step-generate state w ready =
      rw
        (
          item_of "original_policy" ready.inspected.original_is,
          item_of "observed_events" ready.calls_are,
        )
        (elim (generated ready.calls w.environment ready.usable) [
          | inl (c, same, valid) ↦ rw same (
            record {
              inspected = ready.inspected;
              candidate = c;
              candidate_is = refl;
              valid = valid;
              tried = inl ready.first;
              in_force = original;
              holds = ready.holds;
            },
            omega arith,
          )
          | inr (x, same, failed) ↦ rw same failed
        ])

  pub step-validate : StepOf validate_candidate
  unfolding step validate
  step-validate state w ready =
      rw
        (
          item_of "candidate_policy" ready.candidate_is,
          item_of "original_policy" ready.inspected.original_is,
          IsCandidate-is_constrained original ready.candidate ready.valid,
        )
        (ready, omega arith)

  pub step-apply : StepOf apply_candidate
  unfolding step apply
  step-apply state w ready =
      rw (item_of "candidate_policy" ready.candidate_is)
        (elim (Post-cases (config.adapter.apply_policy ready.candidate w.environment)
          (contract.applies w.environment ready.in_force ready.candidate ready.holds ready.valid)) [
            | inl (u, e, applies, now) ↦ rw applies (
              record {
                inspected = ready.inspected;
                candidate = ready.candidate;
                candidate_is = ready.candidate_is;
                current_is = refl;
                valid = ready.valid;
                tried = ready.tried;
                holds = now;
              },
              omega arith,
            )
            | inr (x, e, applies, failed) ↦ rw applies failed
          ])

  pub step-check_more : StepOf check_more_reductions
  unfolding step check_more
  step-check_more state w ready = (ready, omega arith)

  pub step-final_verify : StepOf final_verify
  unfolding step final_verify_node
  step-final_verify state w ready = (
    inl (
      refl,
      record {
        inspected = ready.inspected;
        candidate = ready.candidate;
        current_is = ready.current_is;
        valid = ready.valid;
        holds = ready.holds;
        result = ready.result;
        result_is = ready.result_is;
        passed = ready.passed;
        reports = ready.reports;
      },
    ),
    omega arith,
  )

  pub step-restore : StepOf restore_last_known_good
  unfolding step restore
  step-restore state w ready =
      elim (Post-cases (config.adapter.restore_policy w.environment)
        (contract.restores w.environment ready.in_force ready.holds)) [
          | inl (u, e, restores, now) ↦
              rw (restores, item_of "last_known_good_policy" ready.inspected.good_is)
                (
                  record {
                    inspected = ready.inspected;
                    not_accepted = refl;
                    current_is = refl;
                    holds = now;
                    result = ready.result;
                    result_is = ready.result_is;
                    why = ready.why;
                  },
                  omega arith,
                )
          | inr (x, e, restores, failed) ↦ rw restores failed
        ]

  pub step-human_review : StepOf human_review
  unfolding step human_review_node
  step-human_review state w ready = (inr ready, omega arith)

  pub step-finalize : StepOf finalize_workload
  unfolding step finalize
  step-finalize state w (inl (accepted, ready)) =
      rw (item_of "current_policy" ready.current_is) (inl (accepted, ready), omega arith)
  step-finalize state w (inr ready) =
      rw (item_of "current_policy" ready.current_is) (inr ready, omega arith)

  pub step-publish : StepOf publish_result_event
  unfolding step publish_result
  step-publish state w ready = (ready, omega arith)
