-- ===== src/Rbac/Generator.antt =====
-- rules_engine/rbac/generator.py, up to the text of the YAML.
pub mod Grouping
pub mod Rules
pub mod Scopes
pub mod RoundTrip
use kuber.Base.{
  String, Bool, true, false, ◌&&◌, Option, none, some, List, [], ◌∷◌, ◌++◌, ◌==◌, string_eq,
  option_eq, contains, if◌then◌else◌, map, Eq, ==_iff, ==_refl, ◌≡◌, ◌↔◌, subst, arith,
}
use Prim.Native.String.{compare}
use Prim.Native.Nat.{Ordering}
use kuber.Base.Lists.{flat_map}
use kuber.Base.Text.{concat}
use kuber.Base.Dict.{Dict, get, put}
use kuber.Base.Dict.Groups.{or_nil}
use kuber.Base.Sort.{at_most_text, sorted, tuple_leb}
use kuber.Models.Permission.{Permission}
use kuber.Models.Policy.{Policy, part_or_empty}
use kuber.Rbac.Yaml.{
  Yaml, text, sequence, mapping, no_items, item, Entries, no_entries, entry, texts, sequence_of,
}

-- The tuple that `_rule_key` returns.
pub record RuleKey : Type 0 where
  pub api_group : String
  pub resource : String
  pub resource_name : Option String

abbrev pub rule_key : Permission → RuleKey
rule_key permission = record {
  api_group = permission.api_group;
  resource = permission.resource;
  resource_name = permission.resource_name;
}

abbrev pub rule_key_beq : RuleKey → RuleKey → Bool
rule_key_beq a b =
    a.api_group == b.api_group && a.resource == b.resource && a.resource_name == b.resource_name

pub rule_key_beq_iff : (a b : RuleKey) → (rule_key_beq a b ≡ true) ↔ (a ≡ b)
rule_key_beq_iff a b = (
  λ h. ground (
    arith,
    (==_iff a.api_group b.api_group).0,
    (==_iff a.resource b.resource).0,
    (==_iff a.resource_name b.resource_name).0,
  ),
  λ e.
      subst (λ c. rule_key_beq a c ≡ true) e
        (simp (==_refl a.api_group, ==_refl a.resource, ==_refl a.resource_name)),
)

instance abbrev pub rule_key_eq : Eq RuleKey
rule_key_eq = record { same = rule_key_beq; same_iff = rule_key_beq_iff }

-- `.add(verb)`
abbrev pub add_verb : String → List String → List String
add_verb verb verbs = if contains verbs verb then verbs else verbs ++ verb ∷ []

-- The loop that groups the verbs.
unfoldable pub group_verbs :
    Dict RuleKey (List String) → List Permission → Dict RuleKey (List String)
unfolding get put
group_verbs grouped [] = grouped
group_verbs grouped (permission ∷ rest) =
    let verbs = or_nil (get (rule_key permission) grouped) in
    group_verbs (put (rule_key permission) (add_verb permission.verb verbs) grouped) rest

-- The sort key of `_rules`.
abbrev pub before_rule : RuleKey × List String → RuleKey × List String → Bool
before_rule (a, v) (b, w) =
    tuple_leb (a.api_group ∷ a.resource ∷ part_or_empty a.resource_name ∷ [])
      (b.api_group ∷ b.resource ∷ part_or_empty b.resource_name ∷ [])

-- `if resource_name: rule["resourceNames"] = [resource_name]`
abbrev pub names_entry : Option String → Entries
names_entry none = no_entries
names_entry (some name) =
    if name == ""
    then no_entries
    else entry "resourceNames" (sequence (item (text name) no_items)) no_entries

-- The body of the second loop of `_rules`.
unfoldable pub rule_entry : RuleKey × List String → Yaml
unfolding sorted
rule_entry (key, verbs) = mapping (
    entry "apiGroups" (sequence (item (text key.api_group) no_items)) (
      entry "resources" (sequence (item (text key.resource) no_items)) (
        entry "verbs" (sequence (texts (sorted at_most_text verbs)))
          (names_entry key.resource_name))))

-- `sorted(grouped.items(), …)`
unfoldable pub rule_groups : List Permission → List (RuleKey × List String)
unfolding group_verbs sorted tuple_leb
rule_groups permissions = sorted before_rule (group_verbs [] permissions)

-- `_rules`
unfoldable pub rule_documents : List Permission → List Yaml
unfolding rule_groups rule_entry
rule_documents permissions = map rule_entry (rule_groups permissions)

-- `by_scope`
unfoldable pub group_scopes :
    Dict (Option String) (List Permission)
    → List Permission
    → Dict (Option String) (List Permission)
unfolding get put
group_scopes grouped [] = grouped
group_scopes grouped (permission ∷ rest) =
    let others = or_nil (get permission.namespace grouped) in
    group_scopes (put permission.namespace (others ++ permission ∷ []) grouped) rest

abbrev pub before_scope : Option String × List Permission → Option String × List Permission → Bool
before_scope (a, p) (b, q) = at_most_text (part_or_empty a) (part_or_empty b)

-- `cluster`, `suffix`, and the entry that a namespace adds to the metadata.
abbrev pub is_cluster : Option String → Bool
is_cluster none = true
is_cluster (some namespace) = false

abbrev pub suffix : Option String → String
suffix none = "cluster"
suffix (some namespace) = namespace

abbrev pub namespace_entry : Option String → Entries
namespace_entry none = no_entries
namespace_entry (some namespace) =
    if namespace == "" then no_entries else entry "namespace" (text namespace) no_entries

abbrev pub role_name : Policy → Option String → String
role_name policy namespace = concat (policy.name ∷ "-" ∷ suffix namespace ∷ [])

abbrev pub role_kind : Option String → String
role_kind namespace = if is_cluster namespace then "ClusterRole" else "Role"

-- The role of a scope.
unfoldable pub role_entries : Policy → Option String × List Permission → Entries
unfolding rule_documents
role_entries policy (namespace, permissions) =
    entry "apiVersion" (text "rbac.authorization.k8s.io/v1") (
      entry "kind" (text (role_kind namespace)) (
        entry "metadata"
          (mapping (entry "name" (text (role_name policy namespace)) (namespace_entry namespace)))
          (entry "rules" (sequence (sequence_of (rule_documents permissions))) no_entries)))

abbrev pub subject_document : Policy → Yaml
subject_document policy = mapping (
    entry "kind" (text "ServiceAccount") (
      entry "name" (text policy.service_account)
        (entry "namespace" (text policy.service_account_namespace) no_entries)))

abbrev pub role_ref_document : Policy → Option String → Yaml
role_ref_document policy namespace = mapping (
    entry "apiGroup" (text "rbac.authorization.k8s.io") (
      entry "kind" (text (role_kind namespace))
        (entry "name" (text (role_name policy namespace)) no_entries)))

-- The binding of a scope.
unfoldable pub binding_entries : Policy → Option String → Entries
binding_entries policy namespace = entry "apiVersion" (text "rbac.authorization.k8s.io/v1") (
    entry "kind" (text (if is_cluster namespace then "ClusterRoleBinding" else "RoleBinding")) (
      entry "metadata"
        (mapping (
          entry "name" (text (concat (role_name policy namespace ∷ "-binding" ∷ [])))
            (namespace_entry namespace)))
        (entry "roleRef" (role_ref_document policy namespace)
          (entry "subjects" (sequence (item (subject_document policy) no_items)) no_entries))))

-- The role and the binding of one scope.
unfoldable pub scope_documents : Policy → Option String × List Permission → List Yaml
unfolding role_entries binding_entries
scope_documents policy (namespace, permissions) =
    mapping (role_entries policy (namespace, permissions))
    ∷ mapping (binding_entries policy namespace)
    ∷ []

-- `sorted(by_scope.items(), …)`
unfoldable pub scopes_of : Policy → List (Option String × List Permission)
unfolding group_scopes sorted
scopes_of policy = sorted before_scope (group_scopes [] policy.permissions)

-- `policy_to_documents`
unfoldable pub policy_to_documents : Policy → List Yaml
unfolding scopes_of scope_documents
policy_to_documents policy = flat_map (scope_documents policy) (scopes_of policy)

abbrev pub dumped : (List Yaml → String) → List Yaml → String
dumped dump_all [] = "# Empty policy: no RBAC grants\n"
dumped dump_all (document ∷ documents) = dump_all (document ∷ documents)

-- `policy_to_yaml`, where `yaml.safe_dump_all` is given.
unfoldable pub policy_to_yaml : (List Yaml → String) → Policy → String
unfolding policy_to_documents
policy_to_yaml dump_all policy = dumped dump_all (policy_to_documents policy)
