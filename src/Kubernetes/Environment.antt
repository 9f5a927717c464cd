-- ===== src/Kubernetes/Environment.antt =====
-- kubernetes_runtime/adapter/kubernetes_environment.py: the environment over a live cluster.
-- `Host` is what it runs on: the processes, the files, PyYAML and `json.loads`; `K` is the state of
-- the cluster and the disk.
pub mod Policies
pub mod Evidence
pub mod Factory
pub mod DryRun
pub mod Guard
pub mod Validation
use kuber.Base.{
  ℕ, String, Bool, true, false, not, ◌&&◌, ◌||◌, Option, none, some, List, [], ◌∷◌, ◌++◌, map, ◌==◌,
  string_eq, nat_eq, if◌then◌else◌,
}
use kuber.Base.Text.{concat}
use kuber.Base.Result.{Result, Error, ok, raise, safety_error, other_error}
use kuber.Models.Policy.{Policy}
use kuber.Models.Rbac.{ServiceAccountRef, ParsedRbac}
use kuber.Rbac.Yaml.{Yaml, Items}
use kuber.Rbac.Parser.Documents.{parse_loaded}
use kuber.Rbac.Resolver.{resolve_effective_policy}
use kuber.Agent.Exec.{Exec, pure, lift, ◌>>=◌, ◌>>◌}
use kuber.Event.Contracts.{Value, Fields}
use kuber.Texts.{strip, has_newline}

-- A `CompletedProcess`; of its return code only whether it is zero counts.
pub record Process : Type 0 where
  pub returncode : ℕ
  pub stdout : String
  pub stderr : String

-- What `subprocess.run` does, but for the test of the return code.
pub data Spawned : Type 0 where
  finished : Process → Spawned
  not_found timed_out : Spawned

pub record Host (K : Type 0) : Type 0 where
  pub run : List String → Option String → K → Spawned × K
  pub error_text : List String → Spawned → String
  pub write_file : String → String → K → Result (Unit {0}) × K
  pub read_file : String → K → Option String
  pub load_all : String → Option Items
  pub dump_all : List Yaml → String
  pub loads : String → Option Value
  pub repr : Fields → String
  -- How many reads of the logs five seconds allow.
  pub polls : ℕ

-- The arguments of the constructor.
pub record EnvironmentConfig : Type 0 where
  pub context : String
  pub namespace : String
  pub service_account : String
  pub deployment_name : String
  pub workload_id : String
  pub smoke_command : List String
  pub initial_manifest : String
  pub original_binding_name : String
  pub dry_run : Option Bool
  pub allow_unsafe_context : Bool
  pub artifact_directory : String

-- The object, with the state of the host and the commands that were run.
pub record KubernetesEnvironment (K : Type 0) : Type 0 where
  pub config : EnvironmentConfig
  pub original_policy : Policy
  pub current_policy : Policy
  pub candidate_documents : List Yaml
  pub log_line_cursor : ℕ
  pub pod_name : Option String
  pub safe : Bool
  pub dry_run : Bool
  pub cluster : K
  pub issued : List (List String)

abbrev pub account : EnvironmentConfig → ServiceAccountRef
account config = record { name = config.service_account; namespace = config.namespace }

abbrev pub mode : Bool → String
mode dry_run = if dry_run then "dry-run" else "live"

-- `name`
abbrev pub environment_name : {K : Type 0} → KubernetesEnvironment K → String
environment_name env = concat (
    "kubernetes:"
    ∷ env.config.context
    ∷ "/"
    ∷ env.config.namespace
    ∷ ":"
    ∷ env.config.workload_id
    ∷ ":"
    ∷ mode env.dry_run
    ∷ [])

module _ {K : Type 0} (host : Host K) where
  abbrev pub Action : Type 0 → Type 0
  Action A = Exec (KubernetesEnvironment K) A

  abbrev pub self : Action (KubernetesEnvironment K)
  self env = (ok env, env)

  -- The test that `check=True` asks for, and the exceptions.
  abbrev pub completed : Bool → List String → Spawned → Result Process
  completed check command (finished process) =
      if check && not (process.returncode == 0)
      then raise (other_error "CalledProcessError" (host.error_text command (finished process)))
      else ok process
  completed check command not_found =
      raise (other_error "FileNotFoundError" (host.error_text command not_found))
  completed check command timed_out =
      raise (other_error "TimeoutExpired" (host.error_text command timed_out))

  -- `_run`
  unfoldable pub run : Bool → List String → Option String → Action Process
  run check command input env =
      let (spawned, cluster) = host.run command input env.cluster in
      (
        completed check command spawned,
        record env { cluster = cluster; issued = env.issued ++ command ∷ [] },
      )

  -- `_kubectl`
  unfoldable pub kubectl : Bool → List String → Option String → Action Process
  unfolding run
  kubectl check arguments input env =
      run check ("kubectl" ∷ "--context" ∷ env.config.context ∷ arguments) input env

  -- `except (FileNotFoundError, subprocess.SubprocessError): return False`, of commands alone.
  abbrev pub answer_or_false : Result Bool → Result Bool
  answer_or_false (ok b) = ok b
  answer_or_false (raise e) = ok false

  abbrev pub or_false : Action Bool → Action Bool
  or_false m env = let (r, after) = m env in (answer_or_false r, after)

  unfoldable pub has_label : Action Bool
  unfolding kubectl
  has_label = do
    env ← self
    label ←
        kubectl true
          ("get" ∷ "namespace" ∷ env.config.namespace ∷ "-o"
            ∷ "jsonpath={.metadata.labels.kuber\\.dev/sandbox}" ∷ [])
          none
    pure (strip label.stdout == "true")

  -- `_is_recognized_sandbox`
  unfoldable pub is_recognized_sandbox : Action Bool
  unfolding run has_label
  is_recognized_sandbox = or_false (do
    env ← self
    current ← run true ("kubectl" ∷ "config" ∷ "current-context" ∷ []) none
    if not (strip current.stdout == env.config.context) || not (env.config.context == "kind-kuber")
        then pure false
        else has_label)

  abbrev pub or_unsafe : Option Bool → Bool → Bool
  or_unsafe none safe = not safe
  or_unsafe (some dry_run) safe = dry_run

  abbrev pub guarded : KubernetesEnvironment K → Result (KubernetesEnvironment K)
  guarded env =
      if not env.safe && not env.dry_run && not env.config.allow_unsafe_context
      then raise (
          safety_error
            "live mutation refused: context and sandbox namespace label were not both recognized")
      else ok env

  abbrev pub recognized : Result Bool × KubernetesEnvironment K → Result (KubernetesEnvironment K)
  recognized (ok safe, env) =
      guarded (record env { safe = safe; dry_run = or_unsafe env.config.dry_run safe })
  recognized (raise e, env) = raise e

  abbrev pub loaded : Option String → Option Items
  loaded none = none
  loaded (some s) = host.load_all s

  abbrev pub start : EnvironmentConfig → Policy → K → KubernetesEnvironment K
  start config original cluster = record {
    config = config;
    original_policy = original;
    current_policy = original;
    candidate_documents = [];
    log_line_cursor = 0;
    pod_name = none;
    safe = false;
    dry_run = true;
    cluster = cluster;
    issued = [];
  }

  unfoldable pub construct_from :
      EnvironmentConfig → K → Result ParsedRbac → Result (KubernetesEnvironment K)
  unfolding resolve_effective_policy is_recognized_sandbox
  construct_from config cluster (raise e) = raise e
  construct_from config cluster (ok parsed) = recognized (
      is_recognized_sandbox
        (start config (resolve_effective_policy parsed (account config)) cluster))

  -- `__init__`
  unfoldable pub construct : EnvironmentConfig → K → Result (KubernetesEnvironment K)
  unfolding parse_loaded construct_from
  construct config cluster =
      construct_from config cluster
        (parse_loaded (loaded (host.read_file config.initial_manifest cluster)))
