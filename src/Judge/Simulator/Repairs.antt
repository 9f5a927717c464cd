-- ===== src/Judge/Simulator/Repairs.antt =====
-- One repair is enough for the simulated verification to pass.
use mathlib.Core.Bool.{false≢true}
use kuber.Base.{
  Bool-cases, ℕ, ◌≤◌, ◌≡◌, refl, sym, ap, subst, ◌∙◌, inl, inr, true, false, List, [], ◌∷◌, Memᴰ,
  arith, ◌||◌,
}
use kuber.Base.Result.{ok, ok-injective}
use kuber.Models.Event.{KubeEvent}
use kuber.Models.Policy.{Policy}
use kuber.Rbac.Authorization.{matches, is_authorized}
use kuber.Minimizer.Reducer.Observed.{IsUsable}
use kuber.Agent.Environment.{FailureDescription}
use kuber.Judge.Simulator.{BenchmarkCase, verify_result}
use kuber.Judge.Simulator.Verify.{IsTestCall, verify_result-passed_iff, verify_result-denied_iff}
use kuber.Base.Lists.{any}
use kuber.Minimizer.Reducer.{narrow_permission}
use kuber.Minimizer.Reducer.Repair.{
  repaired, repair_policy-eq-ok, is_authorized-repaired, is_authorized-repaired_missing,
  length-repaired-lt,
}
use kuber.Agent.Verifier.{repair, is_empty}
use kuber.Agent.Workload.Progress
use kuber.Judge.Simulator.Runs

module _ (case : BenchmarkCase)
    (tests-IsUsable : (call : KubeEvent)
      → IsTestCall case.verification_tests call
      → IsUsable case.initial_policy call) where
  abbrev original : Policy
  original = case.initial_policy

  -- Every call that a failure reports is one that the repair may restore.
  missing-IsUsable :
      (p : Policy) (failure : FailureDescription)
      → Runs.Sees case p failure
      → (call : KubeEvent) → Memᴰ call failure.missing_events
      → IsUsable original call
  missing-IsUsable p failure sees call m =
      let (denial, missing, some_denied) = Runs.Sees-missing case p failure sees in
      tests-IsUsable call
        ((verify_result-denied_iff (Runs.with_policy case p) call).0
          (subst (Memᴰ call) missing m)).0

  repair-eq-ok :
      (p : Policy) (failure : FailureDescription)
      → Runs.Sees case p failure
      → repair p failure original ≡ ok (repaired p failure.missing_events)
  unfolding repair
  repair-eq-ok p failure sees =
      let (denial, missing, (call, m, denied)) = Runs.Sees-missing case p failure sees in
      rw (denial, not_empty failure.missing_events call m)
        (repair_policy-eq-ok p original failure.missing_events (missing-IsUsable p failure sees))
    where
      not_empty : (xs : List KubeEvent) (call : KubeEvent) → Memᴰ call xs → is_empty xs ≡ false
      not_empty [] call m = elim m [ ]
      not_empty (x ∷ xs) call m = refl

  -- The repair of a failed candidate passes.
  repaired-passes :
      (p : Policy) (failure : FailureDescription)
      → Runs.Sees case p failure
      → (verify_result (Runs.with_policy case (repaired p failure.missing_events))).passed ≡ true
  repaired-passes p failure sees =
      let (denial, missing, some_denied) = Runs.Sees-missing case p failure sees in
      (verify_result-passed_iff (Runs.with_policy case (repaired p failure.missing_events))).1
        λ call is_test. elim (Bool-cases (is_authorized p call)) [
          | inl allowed ↦
              is_authorized-repaired p failure.missing_events call
              ∙ ap (λ b. b || any (λ e. matches (narrow_permission e) call) failure.missing_events)
                  allowed
          | inr denied ↦ is_authorized-repaired_missing p failure.missing_events call (
              subst (Memᴰ call) (sym missing)
                ((verify_result-denied_iff (Runs.with_policy case p) call).1 (is_test, denied)))
        ]

  -- So no candidate is given up as long as one repair is left at the start.
  pub never_stuck :
      (max_repair_iterations retry_count : ℕ)
      → 1 ≤ max_repair_iterations
      → ¬ Progress.Why max_repair_iterations original (Runs.Sees case) retry_count
  never_stuck n retry_count positive (candidate, failure, valid, sees, tried, inl no_denial) =
      let (denial, missing, some_denied) = Runs.Sees-missing case candidate failure sees in
      false≢true (sym no_denial ∙ denial)
  never_stuck n retry_count positive (candidate, failure, valid, sees, tried, inr (inl used_up)) =
      elim tried [
        | inl first ↦ absurd (omega (arith, positive, used_up, first))
        | inr (before, other, valid_before, sees_before, is_repair) ↦
            let same = ok-injective (sym (repair-eq-ok before other sees_before) ∙ is_repair) in
            false≢true (
              sym sees.1
              ∙ subst (λ q. (verify_result (Runs.with_policy case q)).passed ≡ true) same
                  (repaired-passes before other sees_before))
      ]
  never_stuck n retry_count positive (candidate, failure, valid, sees, tried, inr (inr no_more)) =
      let (denial, missing, (call, m, denied)) = Runs.Sees-missing case candidate failure sees in
      let grows = length-repaired-lt candidate failure.missing_events call valid.normal m denied in
      let bounded =
        no_more (repaired candidate failure.missing_events) (repair-eq-ok candidate failure sees) in
      absurd (omega (arith, grows, bounded))
