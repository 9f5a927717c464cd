-- ===== src/Judge/Simulator/Runs.antt =====
-- The workload graph over the simulated environment.
use kuber.Base.{◌≡◌, sym, ap, subst, ◌∙◌, ◌⊎◌, inl, inr, true, false, List, Memᴰ}
use kuber.Models.Event.{KubeEvent}
use kuber.Models.Policy.{Policy}
use kuber.Rbac.Authorization.{is_authorized}
use kuber.Minimizer.Reducer.Observed.{IsUsable}
use kuber.Agent.Environment.{FailureDescription, VerificationResult}
use kuber.Agent.Workload.Contract.{Contract}
use kuber.Judge.Simulator.{BenchmarkCase, SimulatorEnvironment, simulator, verify_result, describe}
use kuber.Judge.Simulator.Verify.{
  verify_result-denied_iff, verify_result-some_denied, describe-denial,
}

module _ (case : BenchmarkCase) where
  -- The environment of the case with the policy `p` in force.
  abbrev pub with_policy : Policy → SimulatorEnvironment
  with_policy p = record { case = case; original_policy = case.initial_policy; current_policy = p }

  abbrev pub Holds : Policy → SimulatorEnvironment → Type 0
  Holds p env = env ≡ with_policy p

  abbrev pub Reports : Policy → VerificationResult → Type 0
  Reports p result = result ≡ verify_result (with_policy p)

  abbrev pub Sees : Policy → FailureDescription → Type 0
  Sees p failure =
      (failure ≡ describe (verify_result (with_policy p)))
      × ((verify_result (with_policy p)).passed ≡ false)

  abbrev pub AllUsable : List KubeEvent → Type 0
  AllUsable calls = (call : KubeEvent) → Memᴰ call calls → IsUsable case.initial_policy call

  -- The operations do not raise; what is left is where a call cannot be used.
  pub simulator-Contract :
      (Failed : SimulatorEnvironment → Type 0)
      → ((env : SimulatorEnvironment) → Holds case.initial_policy env → Failed env)
        ⊎ AllUsable case.observed_events
      → Contract simulator case.initial_policy Holds Failed Reports Sees
  unfolding simulator
  simulator-Contract Failed usable = record {
    reads = λ e holds. (ap (λ v. v.current_policy) holds, holds);
    observes = λ e holds. (
      elim usable [
        | inl failed ↦ inl (failed e holds)
        | inr calls ↦ inr (subst (λ v. AllUsable v.case.observed_events) (sym holds) calls)
      ],
      holds,
    );
    applies = λ e p q holds valid.
        ap {A = SimulatorEnvironment} (λ v. record v { current_policy = q }) holds;
    verifies = λ e p holds. (ap verify_result holds, holds);
    describes = λ e p result holds reports failed.
        ((ap describe reports, subst (λ r. r.passed ≡ false) reports failed), holds);
    restores = λ e p holds.
        ap {A = SimulatorEnvironment} (λ v. record v { current_policy = v.original_policy }) holds;
  }

  -- The calls of a described failure are the test calls that the policy denies.
  pub Sees-missing :
      (p : Policy) (failure : FailureDescription)
      → Sees p failure
      → (failure.authorization_denial ≡ true)
        × (failure.missing_events ≡ (verify_result (with_policy p)).denied_events)
        × ((call : KubeEvent) × Memᴰ call failure.missing_events × (is_authorized p call ≡ false))
  Sees-missing p failure (is_described, failed) =
      let env = with_policy p in
      let (call, m) = verify_result-some_denied env failed in
      let (denial, missing) = describe-denial (verify_result env) call m in
      (
        ap (λ f. f.authorization_denial) is_described ∙ denial,
        ap (λ f. f.missing_events) is_described ∙ missing,
        (
          call,
          subst (Memᴰ call) (sym (ap (λ f. f.missing_events) is_described ∙ missing)) m,
          ((verify_result-denied_iff env call).0 m).1,
        ),
      )
