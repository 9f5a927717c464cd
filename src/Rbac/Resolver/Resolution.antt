-- ===== src/Rbac/Resolver/Resolution.antt =====
-- The resolved policy allows exactly what RBAC grants to the account.
use kuber.Base.{
  Bool-cases, String, ◌≡◌, sym, ap, subst, ◌∙◌, inl, inr, ◌↔◌, true, Option, none, some,
  Option-cases, List, [], Memᴰ, contains, contains_iff, if◌then◌else◌,
}
use kuber.Base.Lists.{
  any, find, flat_map, Memᴰ-flat_map, Memᴰ-flat_map_inv, any-intro, any-elim, Memᴰ-map_inv,
}
use kuber.Models.Event.{KubeEvent}
use kuber.Models.Permission.{Permission}
use kuber.Models.Policy.{PolicyRule, make_policy}
use kuber.Models.Policy.Normal.{any-normalise, normalise-subset}
use kuber.Models.Rbac.{ServiceAccountRef, RoleObject, BindingObject, ParsedRbac, account_eq}
use kuber.Rbac.Authorization.{matches, is_authorized}
use kuber.Rbac.Authorization.Spec.{matches_iff}
use kuber.Rbac.Authorization.Laws.{is_authorized-eq-any, matches_of_SameCapability}
use kuber.Rbac.Resolver.{
  role_fits, rule_permissions, binding_scope, binding_source, role_permissions, binding_permissions,
  resolve_effective_policy,
}
use kuber.Rbac.Resolver.Semantics.{RbacGrants, RuleAdmits, rule_sound, rule_complete}
use kuber.Rbac.Resolver.Referred.{find-first, first-find, IsScope-binding_scope, IsScope-inv}

-- A permission that a binding contributes, with the rule that it comes from.
pub record Contributes (parsed : ParsedRbac) (account : ServiceAccountRef) (binding : BindingObject)
    (p : Permission) : Type 0 where
  pub subject : Memᴰ account binding.subjects
  pub role : RoleObject
  pub named : find (role_fits binding) parsed.roles ≡ some role
  pub rule : PolicyRule
  pub listed : Memᴰ rule role.rules
  pub from_rule : Memᴰ p (rule_permissions (binding_scope binding) (binding_source binding) rule)

binding_inv :
    {p : Permission} (parsed : ParsedRbac) (account : ServiceAccountRef) (b : BindingObject)
    → Memᴰ p (binding_permissions parsed account b)
    → Contributes parsed account b p
unfolding binding_permissions
binding_inv {p} parsed account b m = elim (Bool-cases (contains b.subjects account)) [
  | inr other ↦ let nothing : Memᴰ p [] = rw other at m in elim nothing [ ]
  | inl subject ↦
      let found : Memᴰ p (role_permissions b (find (role_fits b) parsed.roles)) = rw subject at m in
      elim (Option-cases (find (role_fits b) parsed.roles)) [
        | inl missing ↦ elim (subst (λ r. Memᴰ p (role_permissions b r)) missing found) [ ]
        | inr (role, named) ↦
            let (rule, listed, from_rule) =
              Memᴰ-flat_map_inv (rule_permissions (binding_scope b) (binding_source b)) role.rules
                (subst (λ r. Memᴰ p (role_permissions b r)) named found) in
            record {
              subject = (contains_iff b.subjects account).0 subject;
              role = role;
              named = named;
              rule = rule;
              listed = listed;
              from_rule = from_rule;
            }
      ]
]

binding_intro :
    {p : Permission} (parsed : ParsedRbac) (account : ServiceAccountRef) (b : BindingObject)
    → Contributes parsed account b p
    → Memᴰ p (binding_permissions parsed account b)
unfolding binding_permissions
binding_intro {p} parsed account b c = rw ((contains_iff b.subjects account).1 c.subject) (
    subst (λ r. Memᴰ p (role_permissions b r)) (sym c.named)
      (Memᴰ-flat_map (rule_permissions (binding_scope b) (binding_source b)) c.listed c.from_rule))

module _ (parsed : ParsedRbac) (account : ServiceAccountRef) where
  abbrev collected : List Permission
  collected = flat_map (binding_permissions parsed account) parsed.bindings

  resolved-eq-any :
      (e : KubeEvent)
      → is_authorized (resolve_effective_policy parsed account) e ≡ any (λ p. matches p e) collected
  unfolding resolve_effective_policy make_policy
  resolved-eq-any e =
      is_authorized-eq-any (resolve_effective_policy parsed account) e
      ∙ any-normalise (λ p. matches p e) collected (matches_of_SameCapability e)

  grants_of_match :
      (e : KubeEvent) → any (λ p. matches p e) collected ≡ true → RbacGrants parsed account e
  grants_of_match e h =
      let (p, m, k) = any-elim (λ p. matches p e) collected h in
      let (b, bound, n) =
        Memᴰ-flat_map_inv (binding_permissions parsed account) parsed.bindings m in
      let c = binding_inv parsed account b n in
      record {
        binding = b;
        bound = bound;
        subject = c.subject;
        role = c.role;
        referred = find-first b parsed.roles c.named;
        rule = c.rule;
        listed = c.listed;
        scope = binding_scope b;
        scoped = IsScope-binding_scope b;
        admits =
            rule_sound (binding_scope b) (binding_source b) c.rule e c.from_rule
              ((matches_iff p e).0 k);
      }

  match_of_grants :
      (e : KubeEvent) → RbacGrants parsed account e → any (λ p. matches p e) collected ≡ true
  match_of_grants e g =
      let b = g.binding in
      let (p, from_rule, k) =
        rule_complete (binding_scope b) (binding_source b) g.rule e
          (subst (λ s. RuleAdmits s g.rule e) (IsScope-inv b g.scoped) g.admits) in
      any-intro (λ p. matches p e)
        (Memᴰ-flat_map (binding_permissions parsed account) g.bound (
          binding_intro parsed account b (record {
            subject = g.subject;
            role = g.role;
            named = first-find b parsed.roles g.referred;
            rule = g.rule;
            listed = g.listed;
            from_rule = from_rule;
          })))
        ((matches_iff p e).1 k)

-- The resolved policy allows a call exactly when RBAC grants it to the account: a binding of
-- the account refers to a declared role, the first that it refers to by name and to a
-- ClusterRole or to a Role of its own namespace, and a rule of the role admits the call,
-- everywhere for a ClusterRoleBinding and in the namespace of the binding for another.
pub resolve_iff :
    (parsed : ParsedRbac) (account : ServiceAccountRef) (e : KubeEvent)
    → (is_authorized (resolve_effective_policy parsed account) e ≡ true)
      ↔ RbacGrants parsed account e
resolve_iff parsed account e = (
  λ h. grants_of_match parsed account e (sym (resolved-eq-any parsed account e) ∙ h),
  λ g. resolved-eq-any parsed account e ∙ match_of_grants parsed account e g,
)

rule_scope :
    {p : Permission} (scope : Option String) (source : String) (rule : PolicyRule)
    → Memᴰ p (rule_permissions scope source rule)
    → p.namespace ≡ scope
unfolding rule_permissions
rule_scope scope source rule m =
    let (g, _, m1) = Memᴰ-flat_map_inv _ rule.api_groups m in
    let (r, _, m2) = Memᴰ-flat_map_inv _ rule.resources m1 in
    let (v, _, m3) = Memᴰ-flat_map_inv _ rule.verbs m2 in
    let (n, _, same) = Memᴰ-map_inv _ _ m3 in ap (λ (q : Permission). q.namespace) same

-- Each permission has the scope of a binding of the account: cluster-wide for a
-- ClusterRoleBinding, and the binding's own namespace for a RoleBinding.
pub resolve_scope :
    (parsed : ParsedRbac) (account : ServiceAccountRef) (p : Permission)
    → Memᴰ p (resolve_effective_policy parsed account).permissions
    → (b : BindingObject) × Memᴰ b parsed.bindings
      × Memᴰ account b.subjects
      × (p.namespace ≡ (if b.cluster_binding then none else b.namespace))
unfolding resolve_effective_policy make_policy
resolve_scope parsed account p m =
    let (b, bound, n) =
      Memᴰ-flat_map_inv (binding_permissions parsed account) parsed.bindings
        (normalise-subset (collected parsed account) m) in
    let c = binding_inv parsed account b n in
    (b, bound, c.subject, rule_scope (binding_scope b) (binding_source b) c.rule c.from_rule)
