-- ===== src/Rbac/Generator/Grouping.antt =====
-- The two groupings of the generator: permissions by their scope, and verbs by their rule.
use kuber.Base.{
  Eq, Bool, String, ◌≡◌, refl, sym, ap, subst, inl, inr, ◌⊎◌, Option, Bool-cases, List, [], ◌∷◌,
  ◌++◌, Memᴰ, map, string_eq, option_eq, contains, contains_iff,
}
use kuber.Base.Lists.{
  IsDistinct, Memᴰ-append_cases, Memᴰ-append_left, Memᴰ-append_right, Memᴰ-cons_cases,
}
use kuber.Base.Dict.{Dict, keys}
use kuber.Base.Dict.Groups.{IsAdd, IsGrouped, group_by, group_by-IsGrouped}
use kuber.Base.Sort.{sorted, Memᴰ-sorted, Memᴰ-sorted_inv, sorted-IsDistinct}
use kuber.Models.Permission.{Permission}
use kuber.Models.Policy.{Policy}
use kuber.Rbac.Generator.{
  RuleKey, rule_key, rule_key_eq, add_verb, group_verbs, group_scopes, rule_groups, scopes_of,
  before_rule, before_scope,
}

add_verb-IsAdd : IsAdd add_verb
add_verb-IsAdd = record {
  adds = λ v vs. elim (Bool-cases (contains vs v)) [
    | inl old ↦ rw old ((contains_iff vs v).0 old)
    | inr new ↦ rw new (Memᴰ-append_right vs (Memᴰ.head refl))
  ];
  keeps = λ v w vs m. elim (Bool-cases (contains vs v)) [
    | inl old ↦ rw old m
    | inr new ↦ rw new (Memᴰ-append_left (v ∷ []) m)
  ];
  only = λ v w vs m. elim (Bool-cases (contains vs v)) [
    | inl old ↦ inr (rw old at m)
    | inr new ↦ last_or v vs (rw new at m)
  ];
}
  where
    last_or :
        (v : String) {w : String} (vs : List String) → Memᴰ w (vs ++ v ∷ []) → (w ≡ v) ⊎ Memᴰ w vs
    last_or v vs m = elim (Memᴰ-append_cases vs m) [
      | inl earlier ↦ inr earlier
      | inr last ↦ elim (Memᴰ-cons_cases last) [
        | inl here ↦ inl here
        | inr nothing ↦ elim nothing [ ]
      ]
    ]

abbrev pub add_last : Permission → List Permission → List Permission
add_last p ps = ps ++ p ∷ []

add_last-IsAdd : IsAdd add_last
add_last-IsAdd = record {
  adds = λ p ps. Memᴰ-append_right ps (Memᴰ.head refl);
  keeps = λ p q ps m. Memᴰ-append_left (p ∷ []) m;
  only = λ p q ps m. elim (Memᴰ-append_cases ps m) [
    | inl earlier ↦ inr earlier
    | inr last ↦ elim (Memᴰ-cons_cases last) [
      | inl here ↦ inl here
      | inr nothing ↦ elim nothing [ ]
    ]
  ];
}

group_verbs-eq :
    (ps : List Permission) (d : Dict RuleKey (List String))
    → group_verbs d ps ≡ group_by rule_key (λ p. p.verb) add_verb d ps
unfolding group_verbs
group_verbs-eq [] d = refl
group_verbs-eq (p ∷ ps) d = group_verbs-eq ps _

group_scopes-eq :
    (ps : List Permission) (d : Dict (Option String) (List Permission))
    → group_scopes d ps ≡ group_by (λ p. p.namespace) (λ p. p) add_last d ps
unfolding group_scopes
group_scopes-eq [] d = refl
group_scopes-eq (p ∷ ps) d = group_scopes-eq ps _

keys-eq-map {ℓ κ} : {K : Type ℓ} {V : Type κ} (d : Dict K V) → keys d ≡ map (λ i. i.0) d
keys-eq-map [] = refl
keys-eq-map ((k, v) ∷ d) = ap (λ t. k ∷ t) (keys-eq-map d)

module _ {ℓ κ μ} {A : Type ℓ} {K : Type κ} {V : Type μ} ⦃e : Eq K⦄ (key : A → K) (value : A → V)
    (add : V → List V → List V) where
  -- The order of the groups does not count.
  sorted-IsGrouped :
      (at_most : K × List V → K × List V → Bool) (d : Dict K (List V)) (xs : List A)
      → IsGrouped key value add d xs
      → IsGrouped key value add (sorted at_most d) xs
  sorted-IsGrouped at_most d xs g = record {
    distinct =
        subst IsDistinct (sym (keys-eq-map (sorted at_most d)))
          (sorted-IsDistinct (λ i. i.0) at_most d (subst IsDistinct (keys-eq-map d) g.distinct));
    nonempty = λ k vs m. g.nonempty k vs (Memᴰ-sorted_inv at_most d m);
    sound = λ k vs v m. g.sound k vs v (Memᴰ-sorted_inv at_most d m);
    complete =
        λ x m. let (vs, here, listed) = g.complete x m in (vs, Memᴰ-sorted at_most d here, listed);
  }

abbrev pub IsRuleGrouped : List (RuleKey × List String) → List Permission → Type 0
IsRuleGrouped = IsGrouped rule_key (λ p. p.verb) add_verb

pub rule_groups-IsGrouped : (ps : List Permission) → IsRuleGrouped (rule_groups ps) ps
unfolding rule_groups
rule_groups-IsGrouped ps =
    sorted-IsGrouped rule_key (λ p. p.verb) add_verb before_rule (group_verbs [] ps) ps
      (subst (λ d. IsRuleGrouped d ps) (sym (group_verbs-eq ps []))
        (group_by-IsGrouped rule_key (λ p. p.verb) add_verb add_verb-IsAdd ps))

abbrev pub IsScopeGrouped : List (Option String × List Permission) → List Permission → Type 0
IsScopeGrouped = IsGrouped (λ p. p.namespace) (λ p. p) add_last

pub scopes_of-IsGrouped : (policy : Policy) → IsScopeGrouped (scopes_of policy) policy.permissions
unfolding scopes_of
scopes_of-IsGrouped policy =
    sorted-IsGrouped (λ p. p.namespace) (λ p. p) add_last before_scope
      (group_scopes [] policy.permissions) policy.permissions
      (subst (λ d. IsScopeGrouped d policy.permissions)
        (sym (group_scopes-eq policy.permissions []))
        (group_by-IsGrouped (λ p. p.namespace) (λ p. p) add_last add_last-IsAdd policy.permissions))
