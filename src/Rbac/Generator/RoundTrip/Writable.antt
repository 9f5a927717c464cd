-- ===== src/Rbac/Generator/RoundTrip/Writable.antt =====
-- The policies whose documents the parser of rules_engine/rbac/parser.py returns.
use kuber.Base.{
  String, ◌≡◌, ◌≢◌, refl, subst, Option, some, true, List, [], ◌∷◌, Memᴰ, string_eq, option_eq,
}
use kuber.Base.Result.{ok}
use kuber.Models.Permission.{Permission}
use kuber.Models.Policy.{Policy}
use kuber.Models.Rbac.{ParsedRbac}
use kuber.Rbac.Canonicalizer.{is_supported_resource}
use kuber.Rbac.Yaml.{sequence_of}
use kuber.Rbac.Parser.{is_supported_verb}
use kuber.Rbac.Parser.Documents.{parse_rbac}
use kuber.Rbac.Generator.{scopes_of, policy_to_documents}
use kuber.Rbac.Generator.Grouping.{rule_groups-IsGrouped, scopes_of-IsGrouped}
use kuber.Rbac.Generator.Scopes.{
  AreWritable, IsWritableScope, declared, flatten-documents, read_scopes,
}

-- A permission that a manifest can express: the parser supports its verb and resource, and its
-- namespace and resource name are not empty texts.
pub record IsWritablePermission (p : Permission) : Type 0 where
  pub verb : is_supported_verb p.verb ≡ true
  pub resource : is_supported_resource p.api_group p.resource ≡ true
  pub namespace : p.namespace ≢ some ""
  pub name : p.resource_name ≢ some ""

pub record IsWritable (policy : Policy) : Type 0 where
  pub account : policy.service_account ≢ ""
  pub account_namespace : policy.service_account_namespace ≢ ""
  pub each : (p : Permission) → Memᴰ p policy.permissions → IsWritablePermission p

-- The first item that a list is not empty for.
pub some_member : {A : Type 0} (xs : List A) → xs ≢ [] → (x : A) × Memᴰ x xs
some_member [] h = absurd (h refl)
some_member (x ∷ xs) h = (x, Memᴰ.head refl)

pub writable_rules :
    (permissions : List Permission)
    → ((p : Permission) → Memᴰ p permissions → IsWritablePermission p)
    → AreWritable permissions
writable_rules permissions w key vs m =
    let g = rule_groups-IsGrouped permissions in
    let (v, n) = some_member vs (g.nonempty key vs m) in
    let (p, listed, of_key, _) = g.sound key vs v m n in
    record {
      some_verbs = g.nonempty key vs m;
      verbs = λ verb k.
          let (q, listed', _, of_verb) = g.sound key vs verb m k in
          subst (λ s. is_supported_verb s ≡ true) of_verb (w q listed').verb;
      resource =
          subst (λ k. is_supported_resource k.api_group k.resource ≡ true) of_key
            (w p listed).resource;
      name = subst (λ k. k.resource_name ≢ some "") of_key (w p listed).name;
    }

pub writable_scopes :
    (policy : Policy)
    → IsWritable policy
    → (namespace : Option String) (permissions : List Permission)
    → Memᴰ (namespace, permissions) (scopes_of policy)
    → IsWritableScope namespace permissions
writable_scopes policy w namespace permissions m =
    let g = scopes_of-IsGrouped policy in
    let of_policy : (p : Permission) → Memᴰ p permissions → IsWritablePermission p = λ p n.
      let (q, listed, _, same) = g.sound namespace permissions p m n in
      subst IsWritablePermission same (w.each q listed) in
    let (p, n) = some_member permissions (g.nonempty namespace permissions m) in
    let (q, listed, in_scope, _) = g.sound namespace permissions p m n in
    record {
      named = subst (λ s. s ≢ some "") in_scope (w.each q listed).namespace;
      rules = writable_rules permissions of_policy;
    }

abbrev pub nothing : ParsedRbac
nothing = record { service_accounts = []; roles = []; bindings = [] }

abbrev pub manifest_objects : Policy → ParsedRbac
manifest_objects policy = declared policy nothing (scopes_of policy)

pub parse_rbac-documents :
    (policy : Policy)
    → IsWritable policy
    → parse_rbac (sequence_of (policy_to_documents policy)) ≡ ok (manifest_objects policy)
unfolding parse_rbac policy_to_documents
parse_rbac-documents policy w = rw (flatten-documents policy (scopes_of policy)) (
    read_scopes policy w.account w.account_namespace (scopes_of policy) nothing
      (writable_scopes policy w))
