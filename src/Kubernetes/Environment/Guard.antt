-- ===== src/Kubernetes/Environment/Guard.antt =====
-- `__init__`: what it takes for an environment to be live.
use kuber.Base.{
  String, ◌≡◌, refl, ap, subst, inl, inr, ◌⊎◌, Bool, true, false, not, ◌||◌, Bool-cases, none, List,
  [], ◌∷◌, ◌++◌, ◌==◌, ==_iff, string_eq, nat_eq,
}
use kuber.Base.Result.{Result, ok, raise, ok-injective, raise≢ok}
use kuber.Models.Rbac.{ParsedRbac}
use kuber.Rbac.Resolver.{resolve_effective_policy}
use kuber.Rbac.Parser.Documents.{parse_loaded}
use kuber.Agent.Exec.{continue, bind_inv}
use kuber.Texts.{strip}
use kuber.Kubernetes.Environment.{
  Host, Spawned, finished, not_found, timed_out, EnvironmentConfig, KubernetesEnvironment, Process,
  Action, completed, run, kubectl, has_label, is_recognized_sandbox, answer_or_false, or_unsafe,
  recognized, start, construct_from, construct, account, loaded,
}

abbrev pub context_command : List String
context_command = "kubectl" ∷ "config" ∷ "current-context" ∷ []

abbrev pub label_command : EnvironmentConfig → List String
label_command config =
    "kubectl" ∷ "--context" ∷ config.context ∷ "get" ∷ "namespace" ∷ config.namespace ∷ "-o"
    ∷ "jsonpath={.metadata.labels.kuber\\.dev/sandbox}" ∷ []

-- The host's current context is the one of the configuration and the sandbox's, and the namespace
-- has the sandbox's label.
pub record IsSandbox {K : Type 0} (host : Host K) (config : EnvironmentConfig) (cluster : K)
    : Type 0 where
  pub context : config.context ≡ "kind-kuber"
  pub current : Process
  pub asked : (host.run context_command none cluster).0 ≡ finished current
  pub current_is : strip current.stdout ≡ config.context
  pub label : Process
  pub labelled :
      (host.run (label_command config) none (host.run context_command none cluster).1).0
      ≡ finished label
  pub label_is : strip label.stdout ≡ "true"

module _ {K : Type 0} (host : Host K) where
  completed_inv :
      (command : List String) (spawned : Spawned) {p : Process}
      → completed host true command spawned ≡ ok p
      → spawned ≡ finished p
  completed_inv command (finished q) {p} h = elim (Bool-cases (q.returncode == 0)) [
    | inl zero' ↦ let same : ok q ≡ ok p = rw zero' at h in ap finished (ok-injective same)
    | inr other ↦ absurd (raise≢ok (rw other at h))
  ]
  completed_inv command not_found h = absurd (raise≢ok h)
  completed_inv command timed_out h = absurd (raise≢ok h)

  answer_inv : (r : Result Bool) → answer_or_false host r ≡ ok true → r ≡ ok true
  answer_inv (ok b) h = h
  answer_inv (raise e) h = absurd (cc)

  has_label_inv :
      (env : KubernetesEnvironment K)
      → (has_label host env).0 ≡ ok true
      → (label : Process) × ((host.run (label_command env.config) none env.cluster).0
          ≡ finished label)
        × (strip label.stdout ≡ "true")
  unfolding has_label kubectl run
  has_label_inv env h =
      let spawned = host.run (label_command env.config) none env.cluster in
      let (label, ran, h') =
        bind_inv (completed host true (label_command env.config) spawned.0) _ _ h in
      (
        label,
        completed_inv (label_command env.config) spawned.0 ran,
        (==_iff (strip label.stdout) "true").0 (ok-injective h'),
      )

  IsSandbox-inv :
      (env : KubernetesEnvironment K)
      → (is_recognized_sandbox host env).0 ≡ ok true
      → IsSandbox host env.config env.cluster
  unfolding is_recognized_sandbox run
  IsSandbox-inv env h =
      let spawned = host.run context_command none env.cluster in
      let (current, ran, h') =
        bind_inv (completed host true context_command spawned.0) _ _ (answer_inv _ h) in
      elim (Bool-cases (strip current.stdout == env.config.context)) [
        | inr other ↦ absurd (cc (ok-injective (rw other at h')))
        | inl same ↦ elim (Bool-cases (env.config.context == "kind-kuber")) [
          | inr other ↦ absurd (cc (ok-injective (rw (same, other) at h')))
          | inl kind ↦
              let (label, labelled, label_is) = has_label_inv _ (rw (same, kind) at h') in
              record {
                context = (==_iff env.config.context "kind-kuber").0 kind;
                current = current;
                asked = completed_inv context_command spawned.0 ran;
                current_is = (==_iff (strip current.stdout) env.config.context).0 same;
                label = label;
                labelled = labelled;
                label_is = label_is;
              }
        ]
      ]

  continue-config :
      {A B : Type 0} (r : Result A) (v : KubernetesEnvironment K) (f : A → Action host B)
      → ((a : A) → (f a v).1.config ≡ v.config)
      → (continue r f v).1.config ≡ v.config
  continue-config (ok a) v f h = h a
  continue-config (raise e) v f h = refl

  has_label-config : (env : KubernetesEnvironment K) → (has_label host env).1.config ≡ env.config
  unfolding has_label kubectl run
  has_label-config env =
      let spawned = host.run (label_command env.config) none env.cluster in
      continue-config (completed host true (label_command env.config) spawned.0)
        (record env { cluster = spawned.1; issued = env.issued ++ label_command env.config ∷ [] }) _
        (λ a. refl)

  recognized-config :
      (env : KubernetesEnvironment K) → (is_recognized_sandbox host env).1.config ≡ env.config
  unfolding is_recognized_sandbox run
  recognized-config env =
      let spawned = host.run context_command none env.cluster in
      let after = record env { cluster = spawned.1; issued = env.issued ++ context_command ∷ [] } in
      continue-config (completed host true context_command spawned.0) after _ (λ current.
        elim (Bool-cases (
          not (strip current.stdout == env.config.context)
          || not (env.config.context == "kind-kuber"))) [
            | inl foreign ↦ rw foreign
            | inr ours ↦ rw ours (has_label-config after)
          ])

  guarded_inv :
      (r : Result Bool) (e : KubernetesEnvironment K) {env : KubernetesEnvironment K}
      → recognized host (r, e) ≡ ok env
      → env.dry_run ≡ false
      → (e.config.allow_unsafe_context ≡ true) ⊎ (r ≡ ok true)
  guarded_inv (raise x) e h live = absurd (raise≢ok h)
  guarded_inv (ok true) e h live = inr refl
  guarded_inv (ok false) e {env} h live = elim (Bool-cases e.config.allow_unsafe_context) [
    | inl unsafe ↦ inl unsafe
    | inr safe ↦ elim (Bool-cases (or_unsafe host e.config.dry_run false)) [
      | inr is_live ↦ absurd (raise≢ok (rw (is_live, safe) at h))
      | inl is_dry ↦
          let made : ok (record e { safe = false; dry_run = true }) ≡ ok env = rw is_dry at h in
          absurd (cc (ap (λ v. v.dry_run) (ok-injective made), live))
    ]
  ]

  construct_from_inv :
      (config : EnvironmentConfig) (cluster : K) (parsed : Result ParsedRbac)
      {env : KubernetesEnvironment K}
      → construct_from host config cluster parsed ≡ ok env
      → env.dry_run ≡ false
      → (config.allow_unsafe_context ≡ true) ⊎ IsSandbox host config cluster
  unfolding construct_from
  construct_from_inv config cluster (raise e) h live = absurd (raise≢ok h)
  construct_from_inv config cluster (ok parsed) h live =
      let begin = start host config (resolve_effective_policy parsed (account config)) cluster in
      let checked = is_recognized_sandbox host begin in
      elim (guarded_inv checked.0 checked.1 h live) [
        | inl unsafe ↦
            inl (subst (λ c. c.allow_unsafe_context ≡ true) (recognized-config begin) unsafe)
        | inr recognised ↦ inr (IsSandbox-inv begin recognised)
      ]

  -- Where the constructor of the Kubernetes environment returns one that is no dry run, the
  -- unsafe contexts are allowed by the configuration, or the sandbox was recognised: the
  -- configured context is kind-kuber, the host answered with it as the current one, and the
  -- namespace has the label of the sandbox.
  pub construct-guarded :
      (config : EnvironmentConfig) (cluster : K) (env : KubernetesEnvironment K)
      → construct host config cluster ≡ ok env
      → env.dry_run ≡ false
      → (config.allow_unsafe_context ≡ true) ⊎ IsSandbox host config cluster
  unfolding construct
  construct-guarded config cluster env h live =
      construct_from_inv config cluster
        (parse_loaded (loaded host (host.read_file config.initial_manifest cluster))) h live
