-- ===== src/Rbac/Canonicalizer.antt =====
-- rules_engine/rbac/canonicalizer.py: the supported vocabulary, and wildcards written out.
pub mod Supported
pub mod Expand
use kuber.Base.{
  ℕ, map, String, Bool, true, false, not, ◌&&◌, Option, none, some, List, [], ◌∷◌, ◌==◌, string_eq,
  contains, if◌then◌else◌,
}
use kuber.Base.Lists.{length, any, filter, flat_map}
use kuber.Base.Dict.{Dict, get, keys, values}
use kuber.Models.Permission.{Permission}
use kuber.Models.Policy.{Policy, with_permissions}

-- SUPPORTED_RESOURCES
abbrev pub supported_resources : Dict String (List String)
supported_resources =
    ("", "pods" ∷ "configmaps" ∷ "secrets" ∷ "services" ∷ [])
    ∷ ("apps", "deployments" ∷ [])
    ∷ ("batch", "jobs" ∷ [])
    ∷ ("coordination.k8s.io", "leases" ∷ [])
    ∷ []

-- SUPPORTED_VERBS
abbrev pub supported_verbs : List String
supported_verbs = "get" ∷ "list" ∷ "watch" ∷ "create" ∷ "update" ∷ "patch" ∷ "delete" ∷ []

abbrev pub or_empty : Option (List String) → List String
or_empty none = []
or_empty (some rs) = rs

-- `SUPPORTED_RESOURCES.get(group, ())`
unfoldable pub resources_of : String → List String
unfolding get
resources_of group = or_empty (get group supported_resources)

unfoldable pub is_supported_resource : String → String → Bool
is_supported_resource api_group resource =
    if api_group == "*"
    then (if resource == "*"
        then true
        else any (λ rs. contains rs resource) (values supported_resources))
    else if not (contains (keys supported_resources) api_group)
    then false
    else if resource == "*"
    then true
    else contains (resources_of api_group) resource

-- The groups of `expand_permission`.
unfoldable pub groups_of : Permission → List String
groups_of p =
    if p.api_group == "*" && not (p.resource == "*")
    then map (λ i. i.0) (filter (λ i. contains i.1 p.resource) supported_resources)
    else if p.api_group == "*"
    then keys supported_resources
    else p.api_group ∷ []

unfoldable pub resources_in : Permission → String → List String
resources_in p group = if p.resource == "*" then resources_of group else p.resource ∷ []

unfoldable pub verbs_of : Permission → List String
verbs_of p = if p.verb == "*" then supported_verbs else p.verb ∷ []

unfoldable pub expand_permission : Permission → List Permission
unfolding groups_of resources_in verbs_of
expand_permission p =
    flat_map
      (λ group.
        flat_map
          (λ resource.
            map
              (λ verb. record {
                api_group = group;
                resource = resource;
                verb = verb;
                namespace = p.namespace;
                resource_name = p.resource_name;
                source = p.source;
              })
              (verbs_of p))
          (resources_in p group))
      (groups_of p)

unfoldable pub expand_policy : Policy → Policy
unfolding expand_permission
expand_policy policy = with_permissions policy (flat_map expand_permission policy.permissions)

unfoldable pub effective_permission_count : Policy → ℕ
unfolding expand_policy
effective_permission_count policy = length (expand_policy policy).permissions
