-- ===== src/Context/Discovery.antt =====
-- context_layer/discovery.py: the services of a namespace, from a list or from its deployments.
use kuber.Base.{
  String, Bool, true, false, not, Option, none, some, List, [], ◌∷◌, map, ◌==◌, string_eq,
}
use kuber.Base.Dict.{Dict, get}
use kuber.Base.Lists.{filter}
use kuber.Base.Sort.{sorted, at_most_text}
use kuber.Base.Text.{concat, or_else}
use kuber.Base.Result.{Result, ok, ◌>>=◌}
use kuber.Texts.{split, strip}
use kuber.Context.Models.{ServiceContext, checked}

-- `StaticServiceDiscovery.discover`
unfoldable pub discover_static : List ServiceContext → String → List ServiceContext
discover_static services namespace = filter (λ service. service.namespace == namespace) services

-- The parts of a deployment that the discovery reads.
pub record Deployment : Type 0 where
  pub name : String
  pub labels : Option (Dict String String)
  pub annotations : Option (Dict String String)
  pub service_account_name : Option String
  pub images : List String

-- The Kubernetes API, and `str((repository_root / path).resolve())`.
pub record ClusterApi : Type 0 where
  pub list_namespaced_deployment : String → Result (List Deployment)
  pub resolve : String → String

-- `dict(value or {})`
abbrev pub dict_or_empty : Option (Dict String String) → Dict String String
dict_or_empty none = []
dict_or_empty (some d) = d

-- `d.get(key, default)`
abbrev pub get_or : String → Option String → String
get_or default none = default
get_or default (some s) = s

-- `value or default` on an optional text.
abbrev pub account_or : String → Option String → String
account_or default none = default
account_or default (some s) = or_else s default

abbrev pub is_some : Option String → Bool
is_some none = false
is_some (some s) = true

-- `value.strip() for value in text.split(",") if value.strip()`
unfoldable pub comma_separated : String → List String
unfolding split strip
comma_separated s = filter (λ value. not (value == "")) (map strip (split 44 s))

abbrev pub is_opted_in : Deployment → Bool
is_opted_in item = is_some (get "kuber.dev/source-path" (dict_or_empty item.annotations))

abbrev pub service_id_of : Deployment → String
service_id_of item = get_or item.name (get "app.kubernetes.io/name" (dict_or_empty item.labels))

-- The record that `_to_context` makes.
unfoldable pub context_of : (String → String) → String → Deployment → ServiceContext
unfolding comma_separated
context_of resolve namespace deployment =
    let annotations = dict_or_empty deployment.annotations in
    let service_id = service_id_of deployment in
    let source_path =
      get_or (concat ("examples/service_catalog/" ∷ service_id ∷ []))
        (get "kuber.dev/source-path" annotations) in
    record {
      service_id = service_id;
      namespace = namespace;
      workload_kind = "Deployment";
      deployment_name = deployment.name;
      service_account = account_or "default" deployment.service_account_name;
      source_repository = record {
        service_id = service_id;
        local_path = resolve source_path;
        remote_url = get "kuber.dev/repository-url" annotations;
        commit_sha = get "kuber.dev/commit-sha" annotations;
      };
      important_paths = comma_separated (get_or "." (get "kuber.dev/important-paths" annotations));
      verification_profile = get_or service_id (get "kuber.dev/verification-profile" annotations);
      labels = dict_or_empty deployment.labels;
      container_images = deployment.images;
      kubernetes_usage = [];
      dependencies = comma_separated (get_or "" (get "kuber.dev/dependencies" annotations));
      last_indexed_commit = get "kuber.dev/commit-sha" annotations;
    }

-- `_to_context`
unfoldable pub to_context : (String → String) → String → Deployment → Result ServiceContext
unfolding context_of checked
to_context resolve namespace deployment = checked (context_of resolve namespace deployment)

unfoldable pub to_contexts :
    (String → String) → String → List Deployment → Result (List ServiceContext)
unfolding to_context
to_contexts resolve namespace [] = ok []
to_contexts resolve namespace (deployment ∷ rest) = do
  service ← to_context resolve namespace deployment
  services ← to_contexts resolve namespace rest
  ok (service ∷ services)

abbrev pub by_service_id : ServiceContext → ServiceContext → Bool
by_service_id a b = at_most_text a.service_id b.service_id

-- `KubernetesServiceDiscovery.discover`
unfoldable pub discover : ClusterApi → String → Result (List ServiceContext)
unfolding to_contexts sorted
discover api namespace = do
  deployments ← api.list_namespaced_deployment namespace
  services ← to_contexts api.resolve namespace (filter is_opted_in deployments)
  ok (sorted by_service_id services)
