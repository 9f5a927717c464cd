-- ===== src/Agent/Workload/Contract.antt =====
-- What the workload graph may rely on of an environment.
use kuber.Base.{◌≡◌, ◌⊎◌, false, Memᴰ}
use kuber.Models.Event.{KubeEvent}
use kuber.Models.Policy.{Policy}
use kuber.Minimizer.Reducer.Observed.{IsUsable}
use kuber.Agent.Environment.{EnvironmentAdapter, VerificationResult, FailureDescription}
use kuber.Agent.Exec.{Post}
use kuber.Agent.Workload.Candidate.{IsCandidate}

-- `Holds p e`: the environment `e` has the policy `p` in force. `Failed e`: what is known of the
-- environment where one of its operations raises, or where it reports a call that cannot be used.
-- `Reports p r`: the verification `r` was made with `p` in force. `Sees p f`: the failure `f` was
-- described of such a verification, which did not pass.
pub record Contract {E : Type 0} (adapter : EnvironmentAdapter E) (original : Policy)
    (Holds : Policy → E → Type 0) (Failed : E → Type 0)
    (Reports : Policy → VerificationResult → Type 0) (Sees : Policy → FailureDescription → Type 0)
    : Type 0 where
  pub reads :
      (e : E)
      → Holds original e
      → Post (λ p v. (p ≡ original) × Holds original v) Failed (adapter.get_current_policy e)
  pub observes :
      (e : E)
      → Holds original e
      → Post
          (λ calls v.
            (Failed v ⊎ ((call : KubeEvent) → Memᴰ call calls → IsUsable original call))
            × Holds original v)
          Failed
          (adapter.get_observed_usage e)
  pub applies :
      (e : E) (p q : Policy)
      → Holds p e
      → IsCandidate original q
      → Post (λ _ v. Holds q v) Failed (adapter.apply_policy q e)
  pub verifies :
      (e : E) (p : Policy)
      → Holds p e
      → Post (λ result v. Reports p result × Holds p v) Failed (adapter.verify_workload e)
  pub describes :
      (e : E) (p : Policy) (result : VerificationResult)
      → Holds p e
      → Reports p result
      → result.passed ≡ false
      → Post (λ failure v. Sees p failure × Holds p v) Failed (adapter.describe_failure result e)
  pub restores :
      (e : E) (p : Policy)
      → Holds p e
      → Post (λ _ v. Holds original v) Failed (adapter.restore_policy e)
