-- ===== src/Kubernetes/Environment/Evidence.antt =====
-- What the environment reads of a workload: its logs, the smoke test, and the reset before a run.
use kuber.Base.{
  ℕ, zero, suc, String, Bool, true, false, not, ◌||◌, Option, none, some, List, [], ◌∷◌, leb, ◌==◌,
  string_eq, nat_eq, if◌then◌else◌,
}
use kuber.Base.Lists.{length, drop}
use kuber.Base.Text.{concat, join, show}
use kuber.Base.Result.{ok, raise, dry_run_error}
use kuber.Models.Event.{KubeEvent}
use kuber.Agent.Environment.{VerificationResult, FailureDescription, EnvironmentAdapter}
use kuber.Agent.Exec.{pure, lift, ◌>>=◌, ◌>>◌}
use kuber.Agent.Verifier.{is_empty}
use kuber.Texts.{strip, splitlines, find_summary}
use kuber.Kubernetes.Observation.{collect_events}
use kuber.Kubernetes.Environment.{
  Host, KubernetesEnvironment, Process, Action, self, run, kubectl, environment_name,
}
use kuber.Kubernetes.Environment.Policies.{delete_candidates, apply_policy, restore_policy}

abbrev pub log_target : Option String → String → String
log_target none deployment = concat ("deployment/" ∷ deployment ∷ [])
log_target (some pod) deployment =
    if pod == "" then concat ("deployment/" ∷ deployment ∷ []) else concat ("pod/" ∷ pod ∷ [])

abbrev pub name_or_none : String → Option String
name_or_none s = if s == "" then none else some s

-- The counts that the smoke test printed, or those of its return code.
abbrev pub counts : Option (ℕ × ℕ) → Bool → ℕ × ℕ
counts (some (passed, total)) succeeded = (passed, total)
counts none true = (6, 6)
counts none false = (0, 6)

-- The logs that `verify_workload` reads in one round: all lines, the new text, the denied calls.
pub record Reading : Type 0 where
  pub lines : List String
  pub fresh_logs : String
  pub denied : List KubeEvent

module _ {K : Type 0} (host : Host K) where
  -- `_logs`
  unfoldable pub logs : Action host String
  unfolding kubectl
  logs = do
    env ← self host
    result ←
        kubectl host false
          ("logs"
            ∷ "-n"
            ∷ env.config.namespace
            ∷ log_target env.pod_name env.config.deployment_name
            ∷ [])
          none
    pure (concat (result.stdout ∷ "\n" ∷ result.stderr ∷ []))

  -- The loop of `get_observed_usage`, with the last text and its events.
  unfoldable pub observe : ℕ → String → List KubeEvent → Action host (String × List KubeEvent)
  unfolding logs collect_events
  observe zero last events = pure (last, events)
  observe (suc polls) last events = do
    next ← logs
    let found = collect_events host.loads host.repr false next
    if is_empty found then observe polls next found else pure (next, found)

  unfoldable pub get_observed_usage : Action host (List KubeEvent)
  unfolding observe splitlines
  get_observed_usage = do
    (last, events) ← observe host.polls "" []
    λ e. (ok tt, record e { log_line_cursor = length (splitlines last) })
    pure events

  abbrev pub reading_of : KubernetesEnvironment K → String → Reading
  reading_of env text =
      let lines = splitlines text in
      let start = if leb env.log_line_cursor (length lines) then env.log_line_cursor else 0 in
      let fresh = join "\n" (drop start lines) in
      record {
        lines = lines;
        fresh_logs = fresh;
        denied = collect_events host.loads host.repr true fresh;
      }

  -- The loop of `verify_workload`.
  unfoldable pub read_denials : ℕ → Process → Reading → Action host Reading
  unfolding logs
  read_denials zero result last = pure last
  read_denials (suc polls) result last = do
    text ← logs
    env ← self host
    let reading = reading_of env text
    if result.returncode == 0 || not (is_empty reading.denied)
        then pure reading
        else read_denials polls result reading

  unfoldable pub verify_workload : Action host VerificationResult
  unfolding run read_denials find_summary
  verify_workload = do
    env ← self host
    result ← run host false env.config.smoke_command none
    reading ← read_denials host.polls result (record { lines = []; fresh_logs = ""; denied = [] })
    λ e. (ok tt, record e { log_line_cursor = length reading.lines })
    let (passed, total) = counts (find_summary result.stdout) (result.returncode == 0)
    pure (record {
      passed = result.returncode == 0;
      tests_passed = passed;
      tests_total = total;
      denied_events = reading.denied;
      stdout = result.stdout;
      stderr = concat (result.stderr ∷ "\n" ∷ reading.fresh_logs ∷ []);
    })

  -- `describe_failure`
  unfoldable pub describe_failure : VerificationResult → FailureDescription
  describe_failure result =
      if not (is_empty result.denied_events)
      then record {
        summary = concat (
            "real Kubernetes RBAC denied "
            ∷ show (length result.denied_events)
            ∷ " capability/capabilities"
            ∷ []);
        missing_events = result.denied_events;
        authorization_denial = true;
      }
      else record {
        summary =
            "smoke tests failed without a structured Kubernetes 403; automatic repair refused";
        missing_events = [];
        authorization_denial = false;
      }

  abbrev pub delete_object : String → String → List String → Action host (Unit {0})
  delete_object kind name scope = do
    kubectl host false ("delete" ∷ kind ∷ name ∷ "--ignore-not-found" ∷ scope) none
    pure tt

  abbrev pub delete_job : String → Action host (Unit {0})
  delete_job name = do
    env ← self host
    kubectl host false
        ("delete" ∷ "job" ∷ name ∷ "-n" ∷ env.config.namespace ∷ "--ignore-not-found" ∷ []) none
    pure tt

  -- The commands of `prepare_sandbox` that reset the cluster.
  unfoldable pub reset_objects : Action host (Unit {0})
  unfolding kubectl
  reset_objects = do
    env ← self host
    let generated = concat (env.config.service_account ∷ "-kuber-" ∷ env.config.namespace ∷ [])
    let cluster_wide = concat (env.config.service_account ∷ "-kuber-cluster" ∷ [])
    delete_object "rolebinding" (concat (generated ∷ "-binding" ∷ []))
        ("-n" ∷ env.config.namespace ∷ [])
    delete_object "role" generated ("-n" ∷ env.config.namespace ∷ [])
    delete_object "clusterrolebinding" (concat (cluster_wide ∷ "-binding" ∷ [])) []
    delete_object "clusterrole" cluster_wide []
    delete_job "kuber-warmup"
    delete_job "kuber-smoke"
    delete_job "kuber-worker-smoke"
    kubectl host false
        ("delete" ∷ "lease" ∷ env.config.deployment_name ∷ "-n" ∷ env.config.namespace
          ∷ "--ignore-not-found" ∷ [])
        none
    kubectl host true ("apply" ∷ "-f" ∷ env.config.initial_manifest ∷ []) none
    let target = concat ("deployment/" ∷ env.config.deployment_name ∷ [])
    kubectl host true ("rollout" ∷ "restart" ∷ target ∷ "-n" ∷ env.config.namespace ∷ []) none
    kubectl host true
        ("rollout" ∷ "status" ∷ target ∷ "-n" ∷ env.config.namespace ∷ "--timeout=120s" ∷ []) none
    pure tt

  -- `prepare_sandbox`
  unfoldable pub prepare_sandbox : Action host (Unit {0})
  unfolding delete_candidates reset_objects kubectl strip
  prepare_sandbox = do
    env ← self host
    if env.dry_run
        then lift (raise (dry_run_error "live preparation requires the recognized sandbox"))
        else (do
          delete_candidates host
          reset_objects
          pod ←
              kubectl host false
                ("get"
                  ∷ "pods"
                  ∷ "-n"
                  ∷ env.config.namespace
                  ∷ "-l"
                  ∷ concat ("app=" ∷ env.config.deployment_name ∷ [])
                  ∷ "--field-selector=status.phase=Running"
                  ∷ "--sort-by=.metadata.creationTimestamp"
                  ∷ "-o"
                  ∷ "jsonpath={.items[-1].metadata.name}"
                  ∷ [])
                none
          λ e. (
            ok tt,
            record e {
              pod_name = name_or_none (strip pod.stdout);
              current_policy = e.original_policy;
              log_line_cursor = 0;
            },
          ))

  -- The class, as an environment of the agents.
  unfoldable pub kubernetes : EnvironmentAdapter (KubernetesEnvironment K)
  unfolding get_observed_usage verify_workload describe_failure apply_policy restore_policy
  kubernetes = record {
    name = environment_name;
    get_current_policy = λ env. (ok env.current_policy, env);
    get_observed_usage = get_observed_usage;
    apply_policy = apply_policy host;
    verify_workload = verify_workload;
    restore_policy = restore_policy host;
    describe_failure = λ result. pure (describe_failure result);
  }
