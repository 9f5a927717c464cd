-- ===== src/Rbac/Resolver.antt =====
-- rules_engine/rbac/resolver.py: the policy that the bindings give to one service account.
pub mod Referred
pub mod Semantics
pub mod Resolution
use kuber.Base.{
  String, Bool, true, false, not, ◌&&◌, ◌||◌, Option, none, some, List, [], ◌∷◌, map, ◌==◌,
  string_eq, option_eq, contains, if◌then◌else◌,
}
use kuber.Base.Lists.{flat_map, find}
use kuber.Base.Text.{concat}
use kuber.Models.Permission.{Permission}
use kuber.Models.Policy.{Policy, PolicyRule, make_policy}
use kuber.Models.Rbac.{ServiceAccountRef, RoleObject, BindingObject, ParsedRbac, account_eq}

-- The condition of the search for the role that a binding names.
unfoldable pub role_fits : BindingObject → RoleObject → Bool
role_fits binding candidate =
    candidate.name == binding.role_name
    && (binding.role_kind == "ClusterRole" && candidate.cluster_role
        || binding.role_kind == "Role"
          && not candidate.cluster_role
          && candidate.namespace == binding.namespace)

-- `rule.resource_names or (None,)`
abbrev pub names_or_any : List String → List (Option String)
names_or_any [] = none ∷ []
names_or_any (name ∷ names) = map some (name ∷ names)

-- The four inner loops.
unfoldable pub rule_permissions : Option String → String → PolicyRule → List Permission
rule_permissions namespace source rule =
    flat_map
      (λ group.
        flat_map
          (λ resource.
            flat_map
              (λ verb.
                map
                  (λ resource_name. record {
                    api_group = group;
                    resource = resource;
                    verb = verb;
                    namespace = namespace;
                    resource_name = resource_name;
                    source = some source;
                  })
                  (names_or_any rule.resource_names))
              rule.verbs)
          rule.resources)
      rule.api_groups

abbrev pub binding_scope : BindingObject → Option String
binding_scope binding = if binding.cluster_binding then none else binding.namespace

abbrev pub binding_source : BindingObject → String
binding_source binding = concat (
    (if binding.cluster_binding then "ClusterRoleBinding" else "RoleBinding")
    ∷ "/"
    ∷ binding.name
    ∷ [])

abbrev pub role_permissions : BindingObject → Option RoleObject → List Permission
role_permissions binding none = []
role_permissions binding (some role) =
    flat_map (rule_permissions (binding_scope binding) (binding_source binding)) role.rules

-- The body of the outer loop.
unfoldable pub binding_permissions :
    ParsedRbac → ServiceAccountRef → BindingObject → List Permission
unfolding rule_permissions role_fits
binding_permissions parsed account binding =
    if not (contains binding.subjects account)
    then []
    else role_permissions binding (find (role_fits binding) parsed.roles)

unfoldable pub resolve_effective_policy : ParsedRbac → ServiceAccountRef → Policy
unfolding binding_permissions
resolve_effective_policy parsed account =
    make_policy (flat_map (binding_permissions parsed account) parsed.bindings)
      (concat (account.name ∷ "-effective" ∷ [])) account.name account.namespace
