-- ===== src/Kubernetes/Environment/DryRun/Reads.antt =====
-- What a dry run of kubernetes_environment.py keeps: its commands read.
use kuber.Base.{String, ◌≡◌, refl, true, List, [], ◌∷◌, Memᴰ, string_eq, nat_eq}
use kuber.Models.Policy.{Policy}
use kuber.Kubernetes.Environment.{EnvironmentConfig, KubernetesEnvironment}

-- A command that reads: the smoke test, the name of the context, and the kubectl commands `get` and
-- `logs`.
pub data IsRead (config : EnvironmentConfig) : List String → Type 0 where
  smoke_test : {command : List String} → command ≡ config.smoke_command → IsRead config command
  current_context :
      {command : List String}
      → command ≡ "kubectl" ∷ "config" ∷ "current-context" ∷ []
      → IsRead config command
  getting :
      {command : List String} (rest : List String)
      → command ≡ "kubectl" ∷ "--context" ∷ config.context ∷ "get" ∷ rest
      → IsRead config command
  reading_logs :
      {command : List String} (rest : List String)
      → command ≡ "kubectl" ∷ "--context" ∷ config.context ∷ "logs" ∷ rest
      → IsRead config command

-- Each of the commands is a read.
pub data OnlyReads (config : EnvironmentConfig) : List (List String) → Type 0 where
  no_command : OnlyReads config []
  one_more :
      {command : List String} {commands : List (List String)}
      → IsRead config command
      → OnlyReads config commands
      → OnlyReads config (command ∷ commands)

pub OnlyReads-intro :
    (config : EnvironmentConfig) (commands : List (List String))
    → ((command : List String) → Memᴰ command commands → IsRead config command)
    → OnlyReads config commands
OnlyReads-intro config [] reads = no_command
OnlyReads-intro config (command ∷ commands) reads =
    one_more (reads command (Memᴰ.head refl))
      (OnlyReads-intro config commands (λ c m. reads c (Memᴰ.tail m)))

-- A dry run of the configuration, that started with the policy `original` and has `current` now.
pub record IsDry {K : Type 0} (config : EnvironmentConfig) (original current : Policy)
    (env : KubernetesEnvironment K) : Type 0 where
  pub config_is : env.config ≡ config
  pub original_is : env.original_policy ≡ original
  pub current_is : env.current_policy ≡ current
  pub dry : env.dry_run ≡ true
  pub reads : (command : List String) → Memᴰ command env.issued → IsRead config command
