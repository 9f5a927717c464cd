-- ===== src/Kubernetes/Environment/DryRun.antt =====
-- A dry run changes nothing in the cluster: every command that it runs reads.
mod Operations
pub mod Reads
use kuber.Base.{
  ℕ, ◌≤◌, ◌+◌, ◌*◌, String, ◌≡◌, refl, subst, inl, ◌⊎◌, true, Option, List, [], Memᴰ, string_eq,
  nat_eq,
}
use kuber.Base.Result.{Result, ok, raise}
use kuber.Models.Event.{KubeEvent}
use kuber.Models.Policy.{Policy}
use kuber.Agent.Environment.{FailureDescription}
use kuber.Agent.Exec.{Post}
use kuber.Agent.Workload.{GraphConfig, Explanation}
use kuber.Agent.Workload.Run as Workload
use kuber.Agent.Workload.Outcome.{run-Outcome, Outcome}
use kuber.Minimizer.Reducer.Observed.{IsUsable}
use kuber.Agent.Workload.Contract.{Contract}
use kuber.Kubernetes.Environment.{Host, EnvironmentConfig, KubernetesEnvironment, run}
use kuber.Kubernetes.Environment.Policies.{apply_policy, restore_policy}
use kuber.Kubernetes.Environment.Evidence.{get_observed_usage, verify_workload, kubernetes}
use kuber.Kubernetes.Environment.DryRun.Reads.{OnlyReads, OnlyReads-intro, IsDry}
use kuber.Kubernetes.Environment.DryRun.Operations.{
  get_observed_usage-Keeps, verify_workload-Keeps, apply_policy-Raises,
}

module _ {K : Type 0} (host : Host K) (config : EnvironmentConfig) (original : Policy) where
  abbrev Holds : Policy → KubernetesEnvironment K → Type 0
  Holds = IsDry config original

  -- A dry run, whatever its policy.
  abbrev pub AnyDry : KubernetesEnvironment K → Type 0
  AnyDry env = (p : Policy) × IsDry config original p env

  kept :
      {A : Type 0} (p : Policy) (P : A → Type 0) (r : Result A × KubernetesEnvironment K)
      → Holds p r.1
      → ((a : A) → r.0 ≡ ok a → P a)
      → Post (λ a v. P a × Holds p v) AnyDry r
  kept p P (ok a, v) dry holds = (holds a refl, dry)
  kept p P (raise e, v) dry holds = (p, dry)

  failed_of_Raises :
      (p : Policy) (Q : Unit {0} → KubernetesEnvironment K → Type 0)
      (r : Result (Unit {0}) × KubernetesEnvironment K)
      → Post (λ _ _. ⊥) (Holds p) r
      → Post Q AnyDry r
  failed_of_Raises p Q (ok u, v) h = absurd h
  failed_of_Raises p Q (raise e, v) h = (p, h)

  kubernetes-Contract :
      Contract (kubernetes host) original Holds AnyDry (λ _ _. Unit {0}) (λ _ _. Unit {0})
  unfolding kubernetes restore_policy
  kubernetes-Contract = record {
    reads = λ e holds. (holds.current_is, holds);
    observes = λ e holds.
        let r = get_observed_usage host e in
        let dry = get_observed_usage-Keeps host config original original e holds in observed r dry;
    applies = λ e p q holds candidate.
        failed_of_Raises p (λ _ v. Holds q v) (apply_policy host q e)
          (apply_policy-Raises host config original p q e holds);
    verifies = λ e p holds.
        kept p (λ _. Unit {0}) (verify_workload host e)
          (verify_workload-Keeps host config original p e holds) (λ a returned. tt);
    describes = λ e p result holds reports failed. (tt, holds);
    restores = λ e p holds. rw (holds.dry) (record {
      config_is = holds.config_is;
      original_is = holds.original_is;
      current_is = holds.original_is;
      dry = refl;
      reads = holds.reads;
    });
  }
    where
      observed :
          (r : Result (List KubeEvent) × KubernetesEnvironment K)
          → Holds original r.1
          → Post
              (λ calls v.
                (AnyDry v ⊎ ((call : KubeEvent) → Memᴰ call calls → IsUsable original call))
                × Holds original v)
              AnyDry
              r
      observed (ok calls, v) dry = (inl (original, dry), dry)
      observed (raise e, v) dry = (original, dry)

abbrev pub graph_config :
    {K : Type 0}
    → Host K
    → (FailureDescription → Explanation)
    → ℕ
    → GraphConfig (KubernetesEnvironment K)
graph_config host explain n = record {
  adapter = kubernetes host;
  explain = explain;
  max_repair_iterations = n;
}

-- Where the Kubernetes environment is a dry run that has issued no command and has its original
-- policy in force, and the step limit is at least eleven and five for each allowed repair:
-- every command that a run of the workload graph issues over it, whether the run returns or
-- raises, is the smoke test, the question for the current context, or a kubectl command that
-- only reads.
pub dry_run-reads :
    {K : Type 0} (host : Host K) (explain : FailureDescription → Explanation)
    (max_repairs limit : ℕ) (run_id : String) (task_id workload_id : Option String)
    (context_ref repository_ref : String) (env : KubernetesEnvironment K)
    → env.dry_run ≡ true
    → env.issued ≡ []
    → env.current_policy ≡ env.original_policy
    → 11 + 5 * max_repairs ≤ limit
    → OnlyReads env.config
        (Workload.run
          (graph_config host explain max_repairs)
          limit
          run_id
          task_id
          workload_id
          context_ref
          repository_ref
          env).1.issued
dry_run-reads host explain n limit run_id task_id workload_id context_ref repository_ref env dry
      fresh started enough =
    let original = env.original_policy in
    let started_dry : IsDry env.config original original env = record {
      config_is = refl;
      original_is = refl;
      current_is = started;
      dry = dry;
      reads = λ c k. elim (subst (Memᴰ c) fresh k) [ ];
    } in
    let (p, still) =
      dry_after env.config original n
        (Workload.run (graph_config host explain n) limit run_id task_id workload_id context_ref
          repository_ref env)
        (run-Outcome (graph_config host explain n) original (IsDry env.config original)
          (AnyDry host env.config original) (λ _ _. Unit {0}) (λ _ _. Unit {0})
          (kubernetes-Contract host env.config original) limit run_id task_id workload_id
          context_ref repository_ref env enough started_dry) in
    OnlyReads-intro env.config _ still.reads
  where
    dry_after :
        {K : Type 0} (config : EnvironmentConfig) (original : Policy) (n : ℕ)
        (r : Result Workload.WorkloadExecution × KubernetesEnvironment K)
        → Post
            (Outcome n original (IsDry config original) (λ _ _. Unit {0}) (λ _ _. Unit {0}))
            (λ env. (p : Policy) × IsDry config original p env)
            r
        → (p : Policy) × IsDry config original p r.1
    dry_after config original n (ok x, v) outcome = (x.final_policy, outcome.in_force)
    dry_after config original n (raise e, v) dry = dry
