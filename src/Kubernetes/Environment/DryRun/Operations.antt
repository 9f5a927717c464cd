-- ===== src/Kubernetes/Environment/DryRun/Operations.antt =====
-- The operations of kubernetes_environment.py keep a dry run one.
use kuber.Base.{
  ℕ, zero, suc, String, refl, sym, subst, inl, inr, Bool, false, not, Bool-cases, Option, none,
  List, [], ◌∷◌, ◌||◌, ◌==◌, string_eq, nat_eq,
}
use kuber.Base.Lists.{Memᴰ-append_cases, Memᴰ-cons_cases}
use kuber.Base.Result.{Result, ok, raise, Result-cases}
use kuber.Models.Rbac.{ParsedRbac}
use kuber.Rbac.Resolver.{resolve_effective_policy}
use kuber.Rbac.Generator.{policy_to_yaml}
use kuber.Models.Event.{KubeEvent}
use kuber.Models.Policy.{Policy}
use kuber.Agent.Verifier.{is_empty}
use kuber.Kubernetes.Observation.{collect_events}
use kuber.Agent.Exec.{Exec, Post, continue}
use kuber.Kubernetes.Environment.{
  Host, EnvironmentConfig, KubernetesEnvironment, Process, Action, account, run, kubectl,
}
use kuber.Kubernetes.Environment.Policies.{
  parse_yaml, write_proposal, propose, validate, same_keys, apply_policy,
}
use kuber.Kubernetes.Environment.Evidence.{
  Reading, log_target, logs, observe, get_observed_usage, read_denials, reading_of, verify_workload,
}
use kuber.Kubernetes.Environment.DryRun.Reads.{IsRead, smoke_test, reading_logs, IsDry}

pub Post-continue :
    {W A B : Type 0} (Q : B → W → Type 0) (R : W → Type 0) (r : Result A) (w : W) (f : A → Exec W B)
    → Post (λ a v. Post Q R (f a v)) R (r, w)
    → Post Q R (continue r f w)
Post-continue Q R (ok a) w f h = h
Post-continue Q R (raise e) w f h = h

module _ {K : Type 0} (host : Host K) (config : EnvironmentConfig) (original current : Policy) where
  abbrev pub Dry : KubernetesEnvironment K → Type 0
  Dry = IsDry config original current

  -- The action leaves a dry run a dry run, whether it returns or raises.
  abbrev pub Keeps : {A : Type 0} → Action host A → Type 0
  Keeps m = (env : KubernetesEnvironment K) → Dry env → Dry (m env).1

  pub Keeps-bind :
      {A B : Type 0} (r : Result A) (env : KubernetesEnvironment K) (f : A → Action host B)
      → Dry env
      → ((a : A) → Keeps (f a))
      → Dry (continue r f env).1
  Keeps-bind (ok a) env f dry keeps = keeps a env dry
  Keeps-bind (raise e) env f dry keeps = dry

  pub run-Keeps :
      (check : Bool) (command : List String) (input : Option String)
      → IsRead config command
      → Keeps (run host check command input)
  unfolding run
  run-Keeps check command input read env dry = record {
    config_is = dry.config_is;
    original_is = dry.original_is;
    current_is = dry.current_is;
    dry = dry.dry;
    reads = λ c m. elim (Memᴰ-append_cases env.issued m) [
      | inl earlier ↦ dry.reads c earlier
      | inr last ↦ elim (Memᴰ-cons_cases last) [
        | inl here ↦ subst (IsRead config) (sym here) read
        | inr nothing ↦ elim nothing [ ]
      ]
    ];
  }

  pub kubectl-Keeps :
      (check : Bool) (arguments : List String) (input : Option String)
      → IsRead config ("kubectl" ∷ "--context" ∷ config.context ∷ arguments)
      → Keeps (kubectl host check arguments input)
  unfolding kubectl
  kubectl-Keeps check arguments input read env dry =
      run-Keeps check ("kubectl" ∷ "--context" ∷ env.config.context ∷ arguments) input
        (subst (λ c. IsRead config ("kubectl" ∷ "--context" ∷ c.context ∷ arguments))
          (sym dry.config_is) read)
        env dry

  pub logs-Keeps : Keeps (logs host)
  unfolding logs
  logs-Keeps env dry =
      let command =
        "logs"
        ∷ "-n"
        ∷ env.config.namespace
        ∷ log_target env.pod_name env.config.deployment_name
        ∷ [] in
      let result = kubectl host false command none env in
      Keeps-bind result.0 result.1 _
        (kubectl-Keeps false command none (reading_logs _ refl) env dry) (λ p e d. d)

  pub observe-Keeps :
      (polls : ℕ) (last : String) (events : List KubeEvent) → Keeps (observe host polls last events)
  unfolding observe
  observe-Keeps zero last events env dry = dry
  observe-Keeps (suc polls) last events env dry =
      let result = logs host env in
      Keeps-bind result.0 result.1 _ (logs-Keeps env dry) (λ next e d.
        let found = collect_events host.loads host.repr false next in
        elim (Bool-cases (is_empty found)) [
          | inl empty ↦ rw empty (observe-Keeps polls next found e d)
          | inr some' ↦ rw some' d
        ])

  pub get_observed_usage-Keeps : Keeps (get_observed_usage host)
  unfolding get_observed_usage
  get_observed_usage-Keeps env dry =
      let result = observe host host.polls "" [] env in
      Keeps-bind result.0 result.1 _ (observe-Keeps host.polls "" [] env dry) (λ (last, events) e d.
        record {
          config_is = d.config_is;
          original_is = d.original_is;
          current_is = d.current_is;
          dry = d.dry;
          reads = d.reads;
        })

  pub read_denials-Keeps :
      (polls : ℕ) (result : Process) (last : Reading) → Keeps (read_denials host polls result last)
  unfolding read_denials
  read_denials-Keeps zero result last env dry = dry
  read_denials-Keeps (suc polls) result last env dry =
      let text = logs host env in
      Keeps-bind text.0 text.1 _ (logs-Keeps env dry) (λ t e d.
        let reading = reading_of host e t in
        elim (Bool-cases (result.returncode == 0 || not (is_empty reading.denied))) [
          | inl done ↦ rw done d
          | inr more ↦ rw more (read_denials-Keeps polls result reading e d)
        ])

  pub verify_workload-Keeps : Keeps (verify_workload host)
  unfolding verify_workload
  verify_workload-Keeps env dry =
      let result = run host false env.config.smoke_command none env in
      let smoke : IsRead config env.config.smoke_command =
        subst (λ c. IsRead config c.smoke_command) (sym dry.config_is) (smoke_test refl) in
      Keeps-bind result.0 result.1 _ (run-Keeps false env.config.smoke_command none smoke env dry)
        (λ p e d.
          let nothing : Reading = record { lines = []; fresh_logs = ""; denied = [] } in
          let reading = read_denials host host.polls p nothing e in
          Keeps-bind reading.0 reading.1 _ (read_denials-Keeps host.polls p nothing e d) (λ r v k.
            record {
              config_is = k.config_is;
              original_is = k.original_is;
              current_is = k.current_is;
              dry = k.dry;
              reads = k.reads;
            }))

  pub write_proposal-Keeps : (text : String) → Keeps (write_proposal host text)
  write_proposal-Keeps text env dry = record {
    config_is = dry.config_is;
    original_is = dry.original_is;
    current_is = dry.current_is;
    dry = dry.dry;
    reads = dry.reads;
  }

  pub parse_yaml-Keeps : (text : String) → Keeps (parse_yaml host text)
  unfolding parse_yaml
  parse_yaml-Keeps text env dry = dry

  -- A dry run never gets further than the proposal.
  pub propose-Raises :
      (policy : Policy) (text : String) (env e : KubernetesEnvironment K)
      → Dry env
      → Dry e
      → Post (λ _ _. ⊥) Dry (propose host policy text env e)
  unfolding propose
  propose-Raises policy text env e dry d =
      let written = write_proposal host text e in
      Post-continue (λ _ _. ⊥) Dry written.0 written.1 _
        (elim (Result-cases written.0) [
          | inr (x, bad) ↦ rw bad (write_proposal-Keeps text e d)
          | inl (u, good) ↦ rw (good, dry.dry) (write_proposal-Keeps text e d)
        ])

  pub validate-Raises :
      (policy : Policy) (text : String) (env : KubernetesEnvironment K) (objects : ParsedRbac)
      (e : KubernetesEnvironment K)
      → Dry env
      → Dry e
      → Post (λ _ _. ⊥) Dry (validate host policy text env objects e)
  unfolding validate
  validate-Raises policy text env objects e dry d =
      let resolved = resolve_effective_policy objects (account env.config) in
      elim (Bool-cases (same_keys resolved.permissions policy.permissions)) [
        | inl same ↦ rw same (propose-Raises policy text env e dry d)
        | inr other ↦ rw other d
      ]

  pub apply_policy-Raises :
      (policy : Policy) (env : KubernetesEnvironment K)
      → Dry env
      → Post (λ _ _. ⊥) Dry (apply_policy host policy env)
  unfolding apply_policy
  apply_policy-Raises policy env dry =
      let yaml_text = policy_to_yaml host.dump_all policy in
      let parsed = parse_yaml host yaml_text env in
      Post-continue (λ _ _. ⊥) Dry parsed.0 parsed.1 _
        (elim (Result-cases parsed.0) [
          | inr (e, bad) ↦ rw bad (parse_yaml-Keeps yaml_text env dry)
          | inl (objects, good) ↦ rw good (
              validate-Raises policy yaml_text env objects parsed.1 dry
                (parse_yaml-Keeps yaml_text env dry))
        ])
