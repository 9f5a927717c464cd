-- ===== src/Rbac/Resolver/Semantics.antt =====
-- Resolution against the meaning of RBAC: bindings, the role that each names, and its rules.
use kuber.Base.{
  String, ◌≡◌, refl, sym, subst, ◌∙◌, ◌⊎◌, inl, inr, Option, none, some, List, [], ◌∷◌, Memᴰ,
}
use kuber.Base.Lists.{Memᴰ-map, Memᴰ-map_inv, Memᴰ-flat_map, Memᴰ-flat_map_inv}
use kuber.Models.Event.{KubeEvent}
use kuber.Models.Permission.{Permission}
use kuber.Models.Policy.{PolicyRule}
use kuber.Models.Rbac.{ServiceAccountRef, RoleObject, BindingObject, ParsedRbac, account_eq}
use kuber.Rbac.Authorization.Spec.{Covers, IsNamedVerb, Matches}
use kuber.Rbac.Resolver.Referred.{IsScope, IsFirstNamed}
use kuber.Rbac.Resolver.{names_or_any, rule_permissions}

-- The names of a rule admit a call: the rule has none, or the verb can be restricted and the call
-- carries one of them.
abbrev pub NamesAdmit : List String → KubeEvent → Type 0
NamesAdmit names e =
    (names ≡ []) ⊎ (IsNamedVerb e.verb × ((n : String) × Memᴰ n names × (e.resource_name ≡ some n)))

-- A rule of a role, granted in a scope, admits a call.
pub record RuleAdmits (scope : Option String) (rule : PolicyRule) (e : KubeEvent) : Type 0 where
  pub group : String
  pub group_listed : Memᴰ group rule.api_groups
  pub group_covers : Covers group e.api_group
  pub resource : String
  pub resource_listed : Memᴰ resource rule.resources
  pub resource_covers : Covers resource e.resource
  pub verb : String
  pub verb_listed : Memᴰ verb rule.verbs
  pub verb_covers : Covers verb e.verb
  pub in_scope : (scope ≡ none) ⊎ (scope ≡ e.namespace)
  pub names : NamesAdmit rule.resource_names e

-- What RBAC grants to an account: some binding of the account refers to a declared role, the first
-- where there are more, and a rule of the role admits the call in the scope of the binding.
pub record RbacGrants (parsed : ParsedRbac) (account : ServiceAccountRef) (e : KubeEvent)
    : Type 0 where
  pub binding : BindingObject
  pub bound : Memᴰ binding parsed.bindings
  pub subject : Memᴰ account binding.subjects
  pub role : RoleObject
  pub referred : IsFirstNamed binding parsed.roles role
  pub rule : PolicyRule
  pub listed : Memᴰ rule role.rules
  pub scope : Option String
  pub scoped : IsScope binding scope
  pub admits : RuleAdmits scope rule e

names_sound :
    (names : List String) {n : Option String} (e : KubeEvent)
    → Memᴰ n (names_or_any names)
    → (n ≡ none) ⊎ (IsNamedVerb e.verb × (n ≡ e.resource_name))
    → NamesAdmit names e
names_sound [] e m fits = inl refl
names_sound (x ∷ xs) e m fits =
    let (y, listed, same) = Memᴰ-map_inv some (x ∷ xs) m in
    elim fits [ inl free ↦ cc | inr (v, one) ↦ inr (v, (y, listed, sym one ∙ same)) ]

names_complete :
    (names : List String) (e : KubeEvent)
    → NamesAdmit names e
    → (n : Option String) × Memᴰ n (names_or_any names)
      × ((n ≡ none) ⊎ (IsNamedVerb e.verb × (n ≡ e.resource_name)))
names_complete [] e (inl h) = (none, Memᴰ.head refl, inl refl)
names_complete [] e (inr (v, (y, m, h))) = elim m [ ]
names_complete (x ∷ xs) e (inl h) = cc
names_complete (x ∷ xs) e (inr (v, (y, m, h))) = (some y, Memᴰ-map some m, inr (v, sym h))

module _ (scope : Option String) (source : String) (rule : PolicyRule) (e : KubeEvent) where
  abbrev granted : String → String → String → Option String → Permission
  granted group resource verb name = record {
    api_group = group;
    resource = resource;
    verb = verb;
    namespace = scope;
    resource_name = name;
    source = some source;
  }

  pub rule_sound :
      {p : Permission}
      → Memᴰ p (rule_permissions scope source rule)
      → Matches p e
      → RuleAdmits scope rule e
  unfolding rule_permissions
  rule_sound m matched =
      let (g, mg, m1) = Memᴰ-flat_map_inv _ rule.api_groups m in
      let (r, mr, m2) = Memᴰ-flat_map_inv _ rule.resources m1 in
      let (v, mv, m3) = Memᴰ-flat_map_inv _ rule.verbs m2 in
      let (n, mn, same) = Memᴰ-map_inv (granted g r v) (names_or_any rule.resource_names) m3 in
      let k : Matches (granted g r v n) e = subst (λ q. Matches q e) same matched in
      record {
        group = g;
        group_listed = mg;
        group_covers = k.group;
        resource = r;
        resource_listed = mr;
        resource_covers = k.resource;
        verb = v;
        verb_listed = mv;
        verb_covers = k.verb;
        in_scope = k.namespace;
        names = names_sound rule.resource_names e mn k.name;
      }

  pub rule_complete :
      RuleAdmits scope rule e
      → (p : Permission) × Memᴰ p (rule_permissions scope source rule) × Matches p e
  unfolding rule_permissions
  rule_complete a =
      let (n, mn, fits) = names_complete rule.resource_names e a.names in
      (
        granted a.group a.resource a.verb n,
        Memᴰ-flat_map _ a.group_listed (
            Memᴰ-flat_map _ a.resource_listed
              (Memᴰ-flat_map _ a.verb_listed (Memᴰ-map (granted a.group a.resource a.verb) mn))),
        record {
          group = a.group_covers;
          resource = a.resource_covers;
          verb = a.verb_covers;
          namespace = a.in_scope;
          name = fits;
        },
      )
