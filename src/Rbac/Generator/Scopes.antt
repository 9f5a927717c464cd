-- ===== src/Rbac/Generator/Scopes.antt =====
-- The parser reads the documents of a scope as the role and the binding that they stand for.
use Prim.Native.String
use text.Mathlib.TextLemmas.{append-eq-nil_iff, append-ne-nil_of_right_ne-nil}
use mathlib.Core.List.{append-nil, append_assoc}
use kuber.Base.{
  String, ap₂, ◌≡◌, ◌≢◌, refl, sym, ap, Option, none, some, false, List, [], ◌∷◌, ◌++◌, Memᴰ, map,
  ◌==◌, ==_iff, string_eq,
}
use kuber.Base.Lists.{flat_map}
use kuber.Base.Text.{concat}
use kuber.Base.Result.{ok, map_result}
use kuber.Models.Permission.{Permission}
use kuber.Models.Policy.{Policy}
use kuber.Models.Rbac.{ServiceAccountRef, RoleObject, BindingObject, ParsedRbac}
use kuber.Rbac.Canonicalizer.Supported.{eq_false}
use kuber.Rbac.Yaml.{Yaml, sequence, Entries, get_entry, items_of, sequence_of}
use kuber.Rbac.Parser.{
  rule, rules, flatten_documents, flatten_document, flatten_list, flatten_items,
}
use kuber.Rbac.Parser.Documents.{add_document, add_documents}
use kuber.Rbac.Generator.{
  RuleKey, rule_entry, rule_groups, rule_documents, role_name, role_kind, is_cluster, role_entries,
  binding_entries, scope_documents,
}
use kuber.Rbac.Generator.Rules.{IsWritableRule, rule_of, rule-rule_entry}

abbrev pub role_of : Policy → Option String × List Permission → RoleObject
role_of policy (namespace, permissions) = record {
  name = role_name policy namespace;
  namespace = namespace;
  rules = map rule_of (rule_groups permissions);
  cluster_role = is_cluster namespace;
}

abbrev pub account_of : Policy → ServiceAccountRef
account_of policy = record {
  name = policy.service_account;
  namespace = policy.service_account_namespace;
}

abbrev pub binding_of : Policy → Option String × List Permission → BindingObject
binding_of policy (namespace, permissions) = record {
  name = concat (role_name policy namespace ∷ "-binding" ∷ []);
  namespace = namespace;
  role_name = role_name policy namespace;
  role_kind = role_kind namespace;
  subjects = account_of policy ∷ [];
  cluster_binding = is_cluster namespace;
}

literal-ne-empty : (s : String) → (s == "") ≡ false → s ≢ ""
literal-ne-empty s h e = absurd (cc (h, (==_iff s "").1 e))

items_of-sequence_of : (values : List Yaml) → items_of (sequence_of values) ≡ values
items_of-sequence_of [] = refl
items_of-sequence_of (value ∷ values) = ap (λ t. value ∷ t) (items_of-sequence_of values)

map_result-rule :
    (groups : List (RuleKey × List String))
    → ((key : RuleKey) (vs : List String) → Memᴰ (key, vs) groups → IsWritableRule key vs)
    → map_result rule (map rule_entry groups) ≡ ok (map rule_of groups)
unfolding map_result
map_result-rule [] w = refl
map_result-rule ((key, vs) ∷ groups) w = rw (
  rule-rule_entry key vs (w key vs (Memᴰ.head refl)),
  map_result-rule groups (λ k us m. w k us (Memᴰ.tail m)),
)

abbrev pub AreWritable : List Permission → Type 0
AreWritable permissions =
    (key : RuleKey) (vs : List String)
    → Memᴰ (key, vs) (rule_groups permissions)
    → IsWritableRule key vs

rules-rule_documents :
    (permissions : List Permission)
    → AreWritable permissions
    → rules (sequence (sequence_of (rule_documents permissions)))
      ≡ ok (map rule_of (rule_groups permissions))
unfolding rules rule_documents
rules-rule_documents permissions w =
    rw items_of-sequence_of (map_result-rule (rule_groups permissions) w)

module _ (policy : Policy) where
  name_filled : (namespace : Option String) → (role_name policy namespace == "") ≡ false
  name_filled namespace = eq_false (
      append-ne-nil_of_right_ne-nil policy.name
        (λ e. literal-ne-empty "-" refl (append-eq-nil_iff.0 e).0))

  binding_filled :
      (namespace : Option String)
      → (concat (role_name policy namespace ∷ "-binding" ∷ []) == "") ≡ false
  binding_filled namespace = eq_false (
      append-ne-nil_of_right_ne-nil (role_name policy namespace)
        (literal-ne-empty (String.◌++◌ "-binding" "") refl))

  read_role :
      (parsed : ParsedRbac) (namespace : Option String) (permissions : List Permission)
      → namespace ≢ some ""
      → AreWritable permissions
      → add_document parsed (role_entries policy (namespace, permissions))
        ≡ ok
            (record parsed { roles = parsed.roles ++ role_of policy (namespace, permissions) ∷ [] })
  unfolding add_document role_entries get_entry rule_documents
  read_role parsed none permissions filled w =
      rw (name_filled none, rules-rule_documents permissions w)
  read_role parsed (some n) permissions filled w =
      let present : (n == "") ≡ false = eq_false (λ e. filled (ap some e)) in
      rw (present, name_filled (some n), rules-rule_documents permissions w, present)

  read_binding :
      (parsed : ParsedRbac) (namespace : Option String) (permissions : List Permission)
      → namespace ≢ some ""
      → policy.service_account ≢ ""
      → policy.service_account_namespace ≢ ""
      → add_document parsed (binding_entries policy namespace)
        ≡ ok (record parsed {
          bindings = parsed.bindings ++ binding_of policy (namespace, permissions) ∷ [];
        })
  unfolding add_document binding_entries get_entry
  read_binding parsed none permissions filled name placed =
      rw (binding_filled none, name_filled none, eq_false name, eq_false placed, eq_false placed)
  read_binding parsed (some n) permissions filled name placed =
      let present : (n == "") ≡ false = eq_false (λ e. filled (ap some e)) in
      rw (
        present,
        binding_filled (some n),
        present,
        name_filled (some n),
        eq_false name,
        eq_false placed,
        eq_false placed,
      )

-- The hypotheses under which each document of a policy is read.
pub record IsWritableScope (namespace : Option String) (permissions : List Permission)
    : Type 0 where
  pub named : namespace ≢ some ""
  pub rules : AreWritable permissions

-- The parsed objects of some scopes, after those that are there.
abbrev pub declared : Policy → ParsedRbac → List (Option String × List Permission) → ParsedRbac
declared policy parsed scopes = record parsed {
  roles = parsed.roles ++ map (role_of policy) scopes;
  bindings = parsed.bindings ++ map (binding_of policy) scopes;
}

abbrev pub scope_entries : Policy → Option String × List Permission → List Entries
scope_entries policy scope = role_entries policy scope ∷ binding_entries policy scope.0 ∷ []

pub flatten-documents :
    (policy : Policy) (scopes : List (Option String × List Permission))
    → flatten_documents (sequence_of (flat_map (scope_documents policy) scopes))
      ≡ ok (flat_map (scope_entries policy) scopes)
unfolding flatten_documents flatten_document flatten_list flatten_items scope_documents role_entries
    binding_entries get_entry
flatten-documents policy [] = refl
flatten-documents policy ((none, permissions) ∷ scopes) = rw (flatten-documents policy scopes)
flatten-documents policy ((some n, permissions) ∷ scopes) = rw (flatten-documents policy scopes)

module _ (policy : Policy) (name : policy.service_account ≢ "")
    (placed : policy.service_account_namespace ≢ "") where
  pub read_scopes :
      (scopes : List (Option String × List Permission)) (parsed : ParsedRbac)
      → ((namespace : Option String) (permissions : List Permission)
          → Memᴰ (namespace, permissions) scopes
          → IsWritableScope namespace permissions)
      → add_documents parsed (flat_map (scope_entries policy) scopes)
        ≡ ok (declared policy parsed scopes)
  unfolding add_documents
  read_scopes [] parsed w = ap ok (
      ap₂ (λ r b. record parsed { roles = r; bindings = b }) (sym (append-nil parsed.roles))
        (sym (append-nil parsed.bindings)))
  read_scopes ((namespace, permissions) ∷ scopes) parsed w =
      let here = w namespace permissions (Memᴰ.head refl) in
      let with_role : ParsedRbac = record parsed {
        roles = parsed.roles ++ role_of policy (namespace, permissions) ∷ [];
      } in
      rw (
        read_role policy parsed namespace permissions here.named here.rules,
        read_binding policy with_role namespace permissions here.named name placed,
        read_scopes scopes
            (record with_role {
              bindings = parsed.bindings ++ binding_of policy (namespace, permissions) ∷ [];
            })
            (λ n ps m. w n ps (Memᴰ.tail m)),
        append_assoc,
        append_assoc,
      )
