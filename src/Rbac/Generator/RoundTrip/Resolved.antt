-- ===== src/Rbac/Generator/RoundTrip/Resolved.antt =====
-- What the documents of a policy resolve to, by rules_engine/rbac/resolver.py.
use mathlib.Core.List.{append-nil}
use kuber.Base.{
  String, ◌≡◌, ◌≢◌, refl, sym, ap, subst, ◌∙◌, inl, inr, Option, none, some, true, false, List, [],
  ◌∷◌, Memᴰ, map, ◌==◌, ==_refl, string_eq, option_eq, arith,
}
use kuber.Base.Lists.{
  find, flat_map, IsDistinct, Memᴰ-cons_cases, Memᴰ-map, Memᴰ-map_inv, Memᴰ-flat_map,
  Memᴰ-flat_map_inv,
}
use kuber.Base.Dict.{keys}
use kuber.Base.Dict.Groups.{Memᴰ-keys}
use kuber.Base.Sort.{at_most_text, sorted, Memᴰ-sorted, Memᴰ-sorted_inv}
use kuber.Models.Permission.{Permission, SameCapability}
use kuber.Models.Policy.{Policy, PolicyRule, make_policy}
use kuber.Models.Policy.Normal.{normalise-subset, normalise-covers}
use kuber.Rbac.Authorization.Laws.{Includes}
use kuber.Rbac.Canonicalizer.Supported.{eq_false}
use kuber.Rbac.Resolver.{
  role_fits, rule_permissions, names_or_any, binding_scope, binding_source, binding_permissions,
  resolve_effective_policy,
}
use kuber.Rbac.Generator.{RuleKey, rule_key, rule_groups, scopes_of}
use kuber.Rbac.Generator.Grouping.{rule_groups-IsGrouped, scopes_of-IsGrouped}
use kuber.Rbac.Generator.Rules.{rule_of, names_list}
use kuber.Rbac.Generator.Scopes.{role_of, account_of, binding_of}
use kuber.Rbac.Generator.RoundTrip.Writable.{manifest_objects}

-- A binding fits the role of its own scope, and of no other.
pub fits_own :
    (policy : Policy) (namespace : Option String) (ps qs : List Permission)
    → role_fits (binding_of policy (namespace, ps)) (role_of policy (namespace, qs)) ≡ true
unfolding role_fits
fits_own policy none ps qs = rw (==_refl (role_of policy (none, qs)).name)
fits_own policy (some n) ps qs = rw (==_refl (role_of policy (some n, qs)).name, ==_refl n)

pub fits_no_other :
    (policy : Policy) (namespace other : Option String) (ps qs : List Permission)
    → other ≢ namespace
    → role_fits (binding_of policy (namespace, ps)) (role_of policy (other, qs)) ≡ false
unfolding role_fits
fits_no_other policy none none ps qs ne = absurd (ne refl)
fits_no_other policy none (some m) ps qs ne = ground arith
fits_no_other policy (some n) none ps qs ne = ground arith
fits_no_other policy (some n) (some m) ps qs ne =
    let other : (m == n) ≡ false = eq_false (λ e. ne (ap some e)) in ground arith

abbrev pub Scope : Type 0
Scope = Option String × List Permission

pub find_role :
    (policy : Policy) (scopes : List Scope) (namespace : Option String) (ps : List Permission)
    → IsDistinct (keys scopes)
    → Memᴰ (namespace, ps) scopes
    → find (role_fits (binding_of policy (namespace, ps))) (map (role_of policy) scopes)
      ≡ some (role_of policy (namespace, ps))
find_role policy [] namespace ps h m = elim m [ ]
find_role policy ((other, qs) ∷ scopes) namespace ps h m = elim (Memᴰ-cons_cases m) [
  | inl here ↦
      subst
        (λ s.
          find (role_fits (binding_of policy (namespace, ps)))
            (role_of policy s ∷ map (role_of policy) scopes)
          ≡ some (role_of policy (namespace, ps)))
        here (rw (fits_own policy namespace ps ps))
  | inr there ↦
      let ne : other ≢ namespace = λ e.
        h.0 (subst (λ k. Memᴰ k (keys scopes)) (sym e) (Memᴰ-keys namespace ps scopes there)) in
      rw (fits_no_other policy namespace other ps qs ne)
        (find_role policy scopes namespace ps h.1 there)
]

module _ (policy : Policy) where
  abbrev pub resolved_of : Scope → List Permission
  resolved_of scope =
      flat_map
        (rule_permissions (binding_scope (binding_of policy scope))
          (binding_source (binding_of policy scope)))
        (map rule_of (rule_groups scope.1))

  pub scope_permissions :
      (namespace : Option String) (ps : List Permission)
      → Memᴰ (namespace, ps) (scopes_of policy)
      → binding_permissions
          (manifest_objects policy)
          (account_of policy)
          (binding_of policy (namespace, ps))
        ≡ resolved_of (namespace, ps)
  unfolding binding_permissions
  scope_permissions namespace ps m = rw (
    ==_refl (account_of policy),
    find_role policy (scopes_of policy) namespace ps (scopes_of-IsGrouped policy).distinct m,
  )

  pub scope_of_binding :
      (namespace : Option String) (ps : List Permission)
      → binding_scope (binding_of policy (namespace, ps)) ≡ namespace
  scope_of_binding none ps = refl
  scope_of_binding (some n) ps = refl

pub names_once : (name : Option String) → names_or_any (names_list name) ≡ name ∷ []
names_once none = refl
names_once (some n) = refl

pub flat_map_single :
    {A B : Type 0} (g : A → B) (xs : List A) → flat_map (λ x. g x ∷ []) xs ≡ map g xs
flat_map_single g [] = refl
flat_map_single g (x ∷ xs) = ap (λ t. g x ∷ t) (flat_map_single g xs)

module _ (namespace : Option String) (source : String) (key : RuleKey) (vs : List String) where
  abbrev pub written : String → Option String → Permission
  written verb name = record {
    api_group = key.api_group;
    resource = key.resource;
    verb = verb;
    namespace = namespace;
    resource_name = name;
    source = some source;
  }

  pub rule_of_permissions :
      rule_permissions namespace source (rule_of (key, vs))
      ≡ map (λ verb. written verb key.resource_name) (sorted at_most_text vs)
  unfolding rule_permissions
  rule_of_permissions =
      append-nil _
      ∙ append-nil _
      ∙ ap
          (λ names.
            flat_map (λ verb. map (λ name. written verb name) names) (sorted at_most_text vs))
          (names_once key.resource_name)
      ∙ flat_map_single (λ verb. written verb key.resource_name) (sorted at_most_text vs)

  pub rule_of_sound :
      (q : Permission)
      → Memᴰ q (rule_permissions namespace source (rule_of (key, vs)))
      → (verb : String) × Memᴰ verb vs × (q ≡ written verb key.resource_name)
  rule_of_sound q m =
      let (v, mv, same) =
        Memᴰ-map_inv (λ verb. written verb key.resource_name) (sorted at_most_text vs)
          (subst (Memᴰ q) rule_of_permissions m) in
      (v, Memᴰ-sorted_inv at_most_text vs mv, same)

  pub rule_of_complete :
      (verb : String)
      → Memᴰ verb vs
      → Memᴰ
          (written verb key.resource_name)
          (rule_permissions namespace source (rule_of (key, vs)))
  rule_of_complete verb m =
      subst (Memᴰ (written verb key.resource_name)) (sym rule_of_permissions)
        (Memᴰ-map (λ v. written v key.resource_name) (Memᴰ-sorted at_most_text vs m))

module _ (policy : Policy) where
  abbrev pub resolved : Policy
  resolved = resolve_effective_policy (manifest_objects policy) (account_of policy)

  pub rule_soundly :
      (namespace : Option String) (ps : List Permission) (key : RuleKey) (vs : List String)
      (source : String) (q : Permission)
      → Memᴰ (namespace, ps) (scopes_of policy)
      → Memᴰ (key, vs) (rule_groups ps)
      → Memᴰ q (rule_permissions namespace source (rule_of (key, vs)))
      → (x : Permission) × Memᴰ x policy.permissions × SameCapability q x
  rule_soundly namespace ps key vs source q ms mg m =
      let (verb, mv, is_written) = rule_of_sound namespace source key vs q m in
      let (x, mx, of_key, of_verb) = (rule_groups-IsGrouped ps).sound key vs verb mg mv in
      let (y, my, in_scope, same_y) = (scopes_of-IsGrouped policy).sound namespace ps x ms mx in
      (
        x,
        subst (λ z. Memᴰ z policy.permissions) same_y my,
        subst (λ z. SameCapability z x) (sym is_written)
            (record {
              group = ap (λ k. k.api_group) (sym of_key);
              resource = ap (λ k. k.resource) (sym of_key);
              verb = sym of_verb;
              namespace = sym in_scope ∙ ap (λ z. z.namespace) same_y;
              resource_name = ap (λ k. k.resource_name) (sym of_key);
            }),
      )

  pub read_soundly : Includes policy.permissions resolved.permissions
  unfolding resolve_effective_policy make_policy
  read_soundly q m =
      let permissions_of = binding_permissions (manifest_objects policy) (account_of policy) in
      let (b, mb, m1) =
        Memᴰ-flat_map_inv permissions_of (map (binding_of policy) (scopes_of policy))
          (normalise-subset _ m) in
      let ((namespace, ps), ms, same) = Memᴰ-map_inv (binding_of policy) (scopes_of policy) mb in
      let scope = binding_of policy (namespace, ps) in
      let m2 : Memᴰ q (resolved_of policy (namespace, ps)) =
        subst (Memᴰ q) (ap permissions_of same ∙ scope_permissions policy namespace ps ms) m1 in
      let (r, mr, m3) =
        Memᴰ-flat_map_inv (rule_permissions (binding_scope scope) (binding_source scope))
          (map rule_of (rule_groups ps)) m2 in
      let ((key, vs), mg, same_rule) = Memᴰ-map_inv rule_of (rule_groups ps) mr in
      rule_soundly namespace ps key vs (binding_source scope) q ms mg
        (moved (binding_source scope) same_rule (scope_of_binding policy namespace ps) m3)
    where
      moved :
          (source : String) {q : Permission} {n n' : Option String} {r r' : PolicyRule}
          → r ≡ r'
          → n ≡ n'
          → Memᴰ q (rule_permissions n source r)
          → Memᴰ q (rule_permissions n' source r')
      moved source {q} {n} {n'} {r} {r'} same scope m =
          subst (λ k. Memᴰ q (rule_permissions k source r')) scope
            (subst (λ k. Memᴰ q (rule_permissions n source k)) same m)

  pub read_completely : Includes resolved.permissions policy.permissions
  unfolding resolve_effective_policy make_policy
  read_completely p m =
      let permissions_of = binding_permissions (manifest_objects policy) (account_of policy) in
      let (ps, ms, mp) = (scopes_of-IsGrouped policy).complete p m in
      let (vs, mg, mv) = (rule_groups-IsGrouped ps).complete p mp in
      let b = binding_of policy (p.namespace, ps) in
      let q = written (binding_scope b) (binding_source b) (rule_key p) vs p.verb p.resource_name in
      let in_rule =
        rule_of_complete (binding_scope b) (binding_source b) (rule_key p) vs p.verb mv in
      let in_scope : Memᴰ q (resolved_of policy (p.namespace, ps)) =
        Memᴰ-flat_map (rule_permissions (binding_scope b) (binding_source b)) (Memᴰ-map rule_of mg)
          in_rule in
      let listed : Memᴰ q (flat_map permissions_of (map (binding_of policy) (scopes_of policy))) =
        Memᴰ-flat_map permissions_of (Memᴰ-map (binding_of policy) ms)
          (subst (Memᴰ q) (sym (scope_permissions policy p.namespace ps ms)) in_scope) in
      let (y, my, same) = normalise-covers _ listed in
      (
        y,
        my,
        record {
          group = same.group;
          resource = same.resource;
          verb = same.verb;
          namespace = sym (scope_of_binding policy p.namespace ps) ∙ same.namespace;
          resource_name = same.resource_name;
        },
      )
