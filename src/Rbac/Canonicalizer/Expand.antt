-- ===== src/Rbac/Canonicalizer/Expand.antt =====
-- Writing the wildcards out keeps what a policy allows.
use kuber.Base.{
  Bool-cases, bool_ext, String, ◌≡◌, refl, sym, subst, ◌∙◌, ◌⊎◌, inl, inr, true, false, List, [],
  ◌∷◌, Memᴰ, ◌==◌, ==_iff, string_eq, contains, contains_iff, if◌then◌else◌,
}
use mathlib.Core.Bool.{false≢true}
use kuber.Base.Lists.{
  any, any-intro, any-elim, filter-intro, flat_map, Memᴰ-map, Memᴰ-map_inv, Memᴰ-flat_map,
  Memᴰ-flat_map_inv, Memᴰ-cons_cases,
}
use kuber.Base.Dict.{keys}
use kuber.Models.Event.{KubeEvent}
use kuber.Models.Permission.{Permission}
use kuber.Models.Policy.{Policy}
use kuber.Rbac.Authorization.{matches, is_authorized}
use kuber.Rbac.Authorization.Spec.{Covers, Matches, matches_iff}
use kuber.Rbac.Authorization.Laws.{is_authorized-eq-any, is_authorized-with_permissions}
use kuber.Rbac.Canonicalizer.{
  supported_resources, supported_verbs, resources_of, groups_of, resources_in, verbs_of,
  expand_permission, expand_policy,
}
use kuber.Rbac.Canonicalizer.Supported.{
  IsConcrete, row_of_resource, concrete_group, concrete_resource,
}

-- What the expansion writes comes from a wildcard or is the permission's own word.
abbrev From : String → String → Type 0
From word written = (word ≡ "*") ⊎ (written ≡ word)

From-singleton : {w g : String} → Memᴰ g (w ∷ []) → From w g
From-singleton m = elim (Memᴰ-cons_cases m) [ inl e ↦ inr e | inr n ↦ elim n [ ] ]

From-choice :
    {g : String} (w : String) (all : List String)
    → Memᴰ g (if w == "*" then all else w ∷ [])
    → From w g
From-choice w all m = elim (Bool-cases (w == "*")) [
  | inl star ↦ inl ((==_iff w "*").0 star)
  | inr other ↦ From-singleton (rw other at m)
]

groups-From : {g : String} (p : Permission) → Memᴰ g (groups_of p) → From p.api_group g
unfolding groups_of
groups-From p m = elim (Bool-cases (p.api_group == "*")) [
  | inl star ↦ inl ((==_iff p.api_group "*").0 star)
  | inr other ↦ From-singleton (rw other at m)
]

resources-From :
    {r : String} (p : Permission) (g : String) → Memᴰ r (resources_in p g) → From p.resource r
unfolding resources_in
resources-From p g m = From-choice p.resource (resources_of g) m

verbs-From : {v : String} (p : Permission) → Memᴰ v (verbs_of p) → From p.verb v
unfolding verbs_of
verbs-From p m = From-choice p.verb supported_verbs m

Covers-of_From : {w g r : String} → From w g → Covers g r → Covers w r
Covers-of_From {w} {g} {r} (inl star) c = inl star
Covers-of_From {w} {g} {r} (inr same) c = subst (λ x. Covers x r) same c

-- `q` is `p` with a group, a resource and a verb of their own.
abbrev written : Permission → String → String → String → Permission
written p group resource verb = record {
  api_group = group;
  resource = resource;
  verb = verb;
  namespace = p.namespace;
  resource_name = p.resource_name;
  source = p.source;
}

-- The expansion, taken apart.
record IsExpansion (p q : Permission) : Type 0 where
  group : String
  resource : String
  verb : String
  in_groups : Memᴰ group (groups_of p)
  in_resources : Memᴰ resource (resources_in p group)
  in_verbs : Memᴰ verb (verbs_of p)
  same : q ≡ written p group resource verb

IsExpansion-inv : {q : Permission} (p : Permission) → Memᴰ q (expand_permission p) → IsExpansion p q
unfolding expand_permission
IsExpansion-inv p m =
    let (g, in_groups, m') = Memᴰ-flat_map_inv _ (groups_of p) m in
    let (r, in_resources, m'') = Memᴰ-flat_map_inv _ (resources_in p g) m' in
    let (v, in_verbs, same) = Memᴰ-map_inv (written p g r) (verbs_of p) m'' in
    record {
      group = g;
      resource = r;
      verb = v;
      in_groups = in_groups;
      in_resources = in_resources;
      in_verbs = in_verbs;
      same = same;
    }

expansion :
    (p : Permission) (g r v : String)
    → Memᴰ g (groups_of p)
    → Memᴰ r (resources_in p g)
    → Memᴰ v (verbs_of p)
    → Memᴰ (written p g r v) (expand_permission p)
unfolding expand_permission
expansion p g r v mg mr mv = Memᴰ-flat_map _ mg (Memᴰ-flat_map _ mr (Memᴰ-map (written p g r) mv))

-- An expansion grants nothing that the permission does not grant.
expand_sound :
    {q : Permission} (p : Permission) (e : KubeEvent)
    → Memᴰ q (expand_permission p)
    → Matches q e
    → Matches p e
expand_sound p e m matched =
    let x = IsExpansion-inv p m in
    let k : Matches (written p x.group x.resource x.verb) e =
      subst (λ q. Matches q e) x.same matched in
    record {
      group = Covers-of_From (groups-From p x.in_groups) k.group;
      resource = Covers-of_From (resources-From p x.group x.in_resources) k.resource;
      verb = Covers-of_From (verbs-From p x.in_verbs) k.verb;
      namespace = k.namespace;
      name = k.name;
    }

-- A word that is no wildcard covers itself alone.
covered : {w r : String} → (w == "*") ≡ false → Covers w r → w ≡ r
covered {w} other (inl star) = absurd (false≢true (sym other ∙ (==_iff w "*").1 star))
covered other (inr same) = same

module _ (p : Permission) (e : KubeEvent) (c : IsConcrete e) (m : Matches p e) where
  groups_reach : Memᴰ e.api_group (groups_of p)
  unfolding groups_of
  groups_reach = elim (Bool-cases (p.api_group == "*")) [
    | inl star ↦ elim (Bool-cases (p.resource == "*")) [
      | inl all ↦
          rw (star, all)
            ((contains_iff (keys supported_resources) e.api_group).0 (concrete_group e c))
      | inr one ↦
          let (rs, row, has) = row_of_resource e.api_group e.resource (concrete_resource e c) in
          let has' : contains rs p.resource ≡ true =
            subst (λ r. contains rs r ≡ true) (sym (covered one m.resource)) has in
          rw (star, one)
            (Memᴰ-map (λ i. i.0) (filter-intro (λ i. contains i.1 p.resource) row has'))
    ]
    | inr other ↦ rw other (Memᴰ.head (sym (covered other m.group)))
  ]

  resources_reach : Memᴰ e.resource (resources_in p e.api_group)
  unfolding resources_in
  resources_reach = elim (Bool-cases (p.resource == "*")) [
    | inl star ↦
        rw star ((contains_iff (resources_of e.api_group) e.resource).0 (concrete_resource e c))
    | inr other ↦ rw other (Memᴰ.head (sym (covered other m.resource)))
  ]

  verbs_reach : Memᴰ e.verb (verbs_of p)
  unfolding verbs_of
  verbs_reach = elim (Bool-cases (p.verb == "*")) [
    | inl star ↦ rw star ((contains_iff supported_verbs e.verb).0 c.verb)
    | inr other ↦ rw other (Memᴰ.head (sym (covered other m.verb)))
  ]

  -- A concrete call that a permission grants is granted by one of its expansions.
  expand_complete : (q : Permission) × Memᴰ q (expand_permission p) × Matches q e
  expand_complete = (
    written p e.api_group e.resource e.verb,
    expansion p e.api_group e.resource e.verb groups_reach resources_reach verbs_reach,
    record {
      group = inr refl;
      resource = inr refl;
      verb = inr refl;
      namespace = m.namespace;
      name = m.name;
    },
  )

any-expand_sound :
    (ps : List Permission) (e : KubeEvent)
    → any (λ q. matches q e) (flat_map expand_permission ps) ≡ true
    → any (λ p. matches p e) ps ≡ true
any-expand_sound ps e h =
    let (q, m, k) = any-elim (λ q. matches q e) (flat_map expand_permission ps) h in
    let (p, n, l) = Memᴰ-flat_map_inv expand_permission ps m in
    any-intro (λ p. matches p e) n
      ((matches_iff p e).1 (expand_sound p e l ((matches_iff q e).0 k)))

any-expand_complete :
    (ps : List Permission) (e : KubeEvent)
    → IsConcrete e
    → any (λ p. matches p e) ps ≡ true
    → any (λ q. matches q e) (flat_map expand_permission ps) ≡ true
any-expand_complete ps e c h =
    let (p, m, k) = any-elim (λ p. matches p e) ps h in
    let (q, n, l) = expand_complete p e c ((matches_iff p e).0 k) in
    any-intro (λ q. matches q e) (Memᴰ-flat_map expand_permission m n) ((matches_iff q e).1 l)

-- Whatever the call, the expanded policy allows it only where the policy does.
pub is_authorized-expand_sound :
    (policy : Policy) (e : KubeEvent)
    → is_authorized (expand_policy policy) e ≡ true
    → is_authorized policy e ≡ true
unfolding expand_policy
is_authorized-expand_sound policy e h =
    is_authorized-eq-any policy e
    ∙ any-expand_sound policy.permissions e (sym (is_authorized-with_permissions policy _ e) ∙ h)

-- On a call with a supported group, resource and verb and no wildcard, the expanded policy and
-- the policy decide alike.
pub is_authorized-expand :
    (policy : Policy) (e : KubeEvent)
    → IsConcrete e
    → is_authorized (expand_policy policy) e ≡ is_authorized policy e
is_authorized-expand policy e c = bool_ext _ _ (is_authorized-expand_sound policy e) (λ h.
    unfold expand_policy in
    is_authorized-with_permissions policy _ e
    ∙ any-expand_complete policy.permissions e c (sym (is_authorized-eq-any policy e) ∙ h))
