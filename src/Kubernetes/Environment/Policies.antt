-- ===== src/Kubernetes/Environment/Policies.antt =====
-- Applying and restoring a policy, and the preparation of the sandbox.
use kuber.Base.{
  String, Bool, true, false, not, ◌&&◌, Option, none, some, List, [], ◌∷◌, map, ◌==◌, string_eq,
  option_eq, list_eq, contains, if◌then◌else◌,
}
use kuber.Base.Lists.{all}
use kuber.Base.Text.{concat}
use kuber.Base.Result.{Result, ok, raise, value_error, type_error, assertion_error, dry_run_error}
use kuber.Models.Permission.{Permission, key}
use kuber.Models.Policy.{Policy}
use kuber.Models.Rbac.{ParsedRbac}
use kuber.Rbac.Yaml.{Yaml, null, flag, number, text, sequence, mapping, Items, Entries, get_entry}
use kuber.Rbac.Parser.Documents.{parse_loaded, is_false}
use kuber.Rbac.Resolver.{resolve_effective_policy}
use kuber.Rbac.Generator.{policy_to_documents, policy_to_yaml}
use kuber.Agent.Exec.{pure, lift, item, ◌>>=◌, ◌>>◌}
use kuber.Agent.Verifier.{is_empty}
use kuber.Texts.{has_newline}
use kuber.Kubernetes.Environment.{Host, KubernetesEnvironment, Action, self, kubectl, account}

-- `{item.key() for item in a} == {item.key() for item in b}`
unfoldable pub same_keys : List Permission → List Permission → Bool
unfolding key
same_keys ps qs =
    all (λ p. contains (map key qs) (key p)) ps && all (λ q. contains (map key ps) (key q)) qs

-- `str(value)`; the generator writes texts.
abbrev pub text_of_entry : Yaml → String
text_of_entry (text s) = s
text_of_entry null = "None"
text_of_entry (flag true) = "True"
text_of_entry (flag false) = "False"
text_of_entry (number n) = ""
text_of_entry (sequence items) = ""
text_of_entry (mapping members) = ""

-- `.lower()`, of the kinds that the generator writes.
abbrev pub lower_kind : String → String
lower_kind kind =
    if kind == "Role"
    then "role"
    else if kind == "ClusterRole"
    then "clusterrole"
    else if kind == "RoleBinding"
    then "rolebinding"
    else if kind == "ClusterRoleBinding"
    then "clusterrolebinding"
    else kind

-- `assert isinstance(metadata, dict)`
abbrev pub metadata_of : Yaml → Result Entries
metadata_of (mapping entries) = ok entries
metadata_of null = raise assertion_error
metadata_of (flag b) = raise assertion_error
metadata_of (number n) = raise assertion_error
metadata_of (text s) = raise assertion_error
metadata_of (sequence items) = raise assertion_error

abbrev pub namespace_arguments : Option Yaml → List String
namespace_arguments none = []
namespace_arguments (some value) = if is_false value then [] else "-n" ∷ text_of_entry value ∷ []

abbrev pub document_entries : Yaml → Result Entries
document_entries (mapping entries) = ok entries
document_entries null = raise (type_error "not a mapping")
document_entries (flag b) = raise (type_error "not a mapping")
document_entries (number n) = raise (type_error "not a mapping")
document_entries (text s) = raise (type_error "not a mapping")
document_entries (sequence items) = raise (type_error "not a mapping")

module _ {K : Type 0} (host : Host K) where
  -- The body of the loop of `_delete_candidates`.
  unfoldable pub delete_candidate : Yaml → Action host (Unit {0})
  unfolding get_entry kubectl
  delete_candidate document = do
    entries ← lift (document_entries document)
    kind ← lift (item "kind" (get_entry "kind" entries))
    value ← lift (item "metadata" (get_entry "metadata" entries))
    metadata ← lift (metadata_of value)
    name ← lift (item "name" (get_entry "name" metadata))
    kubectl host false
        ("delete"
          ∷ lower_kind (text_of_entry kind)
          ∷ text_of_entry name
          ∷ "--ignore-not-found"
          ∷ namespace_arguments (get_entry "namespace" metadata))
        none
    pure tt

  unfoldable pub delete_all : List Yaml → Action host (Unit {0})
  unfolding delete_candidate
  delete_all [] = pure tt
  delete_all (document ∷ documents) = do delete_candidate document; delete_all documents

  -- `_delete_candidates`
  unfoldable pub delete_candidates : Action host (Unit {0})
  unfolding delete_all
  delete_candidates = do
    env ← self host
    delete_all env.candidate_documents
    λ e. (ok tt, record e { candidate_documents = [] })

  abbrev pub file_or_text : String → Option String → Option Items
  file_or_text s none = host.load_all s
  file_or_text s (some content) = host.load_all content

  -- `parse_rbac(yaml_text)`: a text without a line end may name a file.
  unfoldable pub parse_yaml : String → Action host ParsedRbac
  unfolding has_newline parse_loaded
  parse_yaml s env = (
    parse_loaded
        (if has_newline s then host.load_all s else file_or_text s (host.read_file s env.cluster)),
    env,
  )

  -- The text is written to the artifacts.
  abbrev pub write_proposal : String → Action host (Unit {0})
  write_proposal yaml_text env =
      let path =
        concat (env.config.artifact_directory ∷ "/" ∷ env.config.service_account ∷ ".yaml" ∷ []) in
      let (r, cluster) = host.write_file path yaml_text env.cluster in
      (r, record env { cluster = cluster })

  abbrev pub proposal_message : KubernetesEnvironment K → String
  proposal_message env = concat (
      "proposal written to " ∷ env.config.artifact_directory ∷ "/" ∷ env.config.service_account
      ∷ ".yaml; explicit approval is required outside the sandbox" ∷ [])

  -- What is done in a live environment.
  unfoldable pub apply_live : Policy → String → Action host (Unit {0})
  unfolding policy_to_documents kubectl
  apply_live policy yaml_text = do
    env ← self host
    λ e. (ok tt, record e { candidate_documents = policy_to_documents policy })
    if is_empty (policy_to_documents policy)
        then pure tt
        else (do kubectl host true ("apply" ∷ "-f" ∷ "-" ∷ []) (some yaml_text); pure tt)
    kubectl host true
        ("delete" ∷ "rolebinding" ∷ env.config.original_binding_name ∷ "--ignore-not-found" ∷ "-n"
          ∷ env.config.namespace ∷ [])
        none
    kubectl host true
        ("delete" ∷ "clusterrolebinding" ∷ env.config.original_binding_name ∷ "--ignore-not-found"
          ∷ [])
        none
    λ e. (ok tt, record e { current_policy = policy })

  -- What follows the validation.
  unfoldable pub propose : Policy → String → KubernetesEnvironment K → Action host (Unit {0})
  unfolding apply_live
  propose policy yaml_text env = do
    write_proposal yaml_text
    if env.dry_run
        then lift (raise (dry_run_error (proposal_message env)))
        else apply_live policy yaml_text

  unfoldable pub validate :
      Policy → String → KubernetesEnvironment K → ParsedRbac → Action host (Unit {0})
  unfolding resolve_effective_policy same_keys propose
  validate policy yaml_text env parsed =
      let resolved = resolve_effective_policy parsed (account env.config) in
      if not (same_keys resolved.permissions policy.permissions)
      then lift (raise (value_error "generated policy failed deterministic round-trip validation"))
      else propose policy yaml_text env

  unfoldable pub apply_policy : Policy → Action host (Unit {0})
  unfolding policy_to_yaml parse_yaml validate
  apply_policy policy = do
    env ← self host
    let yaml_text = policy_to_yaml host.dump_all policy
    parsed ← parse_yaml yaml_text
    validate policy yaml_text env parsed

  unfoldable pub restore_live : Action host (Unit {0})
  unfolding delete_candidates kubectl policy_to_yaml
  restore_live = do
    delete_candidates
    env ← self host
    kubectl host true ("apply" ∷ "-f" ∷ "-" ∷ [])
        (some (policy_to_yaml host.dump_all env.original_policy))
    λ e. (ok tt, record e { current_policy = e.original_policy })

  unfoldable pub restore_policy : Action host (Unit {0})
  unfolding restore_live
  restore_policy = do
    env ← self host
    if env.dry_run
        then (λ e. (ok tt, record e { current_policy = e.original_policy }))
        else restore_live
