-- ===== src/Rbac/Authorization/Laws.antt =====
-- What decides a request: the set of capabilities, and neither order, duplicates nor sources.
use kuber.Base.{
  Bool-cases, ◌≡◌, refl, sym, ◌∙◌, subst, ◌↔◌, ◌⊎◌, inl, inr, true, false, none, some, List, [],
  ◌∷◌, Memᴰ,
}
use mathlib.Core.Bool.{false≢true}
use kuber.Base.Lists.{any, any-elim, any-intro, Memᴰ-cons_cases}
use kuber.Models.Event.{KubeEvent}
use kuber.Models.Permission.{Permission, SameCapability}
use kuber.Models.Policy.{Policy, with_permissions, make_policy}
use kuber.Models.Policy.Normal.{any-normalise}
use kuber.Rbac.Authorization.{matches, first_match, is_authorized, authorize}
use kuber.Rbac.Authorization.Spec.{Matches, matches_iff}

-- The permissions `ps` allow the call `e`.
abbrev pub Grants : List Permission → KubeEvent → Type 0
Grants ps e = (p : Permission) × Memᴰ p ps × Matches p e

pub first_match-eq-any :
    (ps : List Permission) (e : KubeEvent) → (first_match ps e).allowed ≡ any (λ p. matches p e) ps
first_match-eq-any [] e = refl
first_match-eq-any (p ∷ ps) e = elim (Bool-cases (matches p e)) [
  | inl h ↦ rw h
  | inr h ↦ rw h (first_match-eq-any ps e)
]

pub is_authorized-eq-any :
    (policy : Policy) (e : KubeEvent)
    → is_authorized policy e ≡ any (λ p. matches p e) policy.permissions
unfolding is_authorized
is_authorized-eq-any policy e = first_match-eq-any policy.permissions e

-- A policy allows a call exactly when one of its permissions grants it.
pub is_authorized_iff :
    (policy : Policy) (e : KubeEvent)
    → (is_authorized policy e ≡ true) ↔ Grants policy.permissions e
is_authorized_iff policy e = (
  λ h.
      let (p, m, k) =
        any-elim (λ p. matches p e) policy.permissions (sym (is_authorized-eq-any policy e) ∙ h) in
      (p, m, (matches_iff p e).0 k),
  λ (p, m, k).
      is_authorized-eq-any policy e ∙ any-intro (λ q. matches q e) m ((matches_iff p e).1 k),
)

pub matches_of_SameCapability :
    (e : KubeEvent) (p q : Permission) → SameCapability p q → matches p e ≡ matches q e
unfolding matches
matches_of_SameCapability e p q s = cc (s.group, s.resource, s.verb, s.namespace, s.resource_name)

pub Matches-of_SameCapability :
    {p q : Permission} {e : KubeEvent} → SameCapability p q → Matches p e → Matches q e
Matches-of_SameCapability {p} {q} {e} s m =
    (matches_iff q e).0 (sym (matches_of_SameCapability e p q s) ∙ (matches_iff p e).1 m)

-- Every capability of `ps` is one of `qs`.
abbrev pub Includes : List Permission → List Permission → Type 0
Includes qs ps = (p : Permission) → Memᴰ p ps → (q : Permission) × Memᴰ q qs × SameCapability p q

-- Where every capability of one policy is one of another, the other allows each call that the
-- one allows: order, duplicates and sources do not count.
pub is_authorized_mono :
    (p q : Policy) (e : KubeEvent)
    → Includes q.permissions p.permissions
    → is_authorized p e ≡ true
    → is_authorized q e ≡ true
is_authorized_mono p q e more h =
    let (x, m, grants) = (is_authorized_iff p e).0 h in
    let (y, n, same) = more x m in
    (is_authorized_iff q e).1 (y, n, Matches-of_SameCapability same grants)

first_match_decision :
    (ps : List Permission) (e : KubeEvent)
    → ((p : Permission) × ((first_match ps e).matching_permission ≡ some p)
        × ((first_match ps e).allowed ≡ true)
        × Memᴰ p ps
        × Matches p e)
      ⊎ (((first_match ps e).matching_permission ≡ none)
          × ((first_match ps e).allowed ≡ false)
          × ¬ Grants ps e)
first_match_decision [] e = inr (refl, refl, λ (p, m, k). elim m [ ])
first_match_decision (p ∷ ps) e = elim (Bool-cases (matches p e)) [
  | inl h ↦ rw h (inl (p, refl, refl, Memᴰ.head refl, (matches_iff p e).0 h))
  | inr h ↦ rw h (elim (first_match_decision ps e) [
    | inl (q, found, yes', m, k) ↦ inl (q, found, yes', Memᴰ.tail m, k)
    | inr (found, no', nothing) ↦ inr (
      found,
      no',
      λ (q, m, k). elim (Memᴰ-cons_cases m) [
        | inl here ↦ false≢true (sym h ∙ (matches_iff p e).1 (subst (λ x. Matches x e) here k))
        | inr there ↦ nothing (q, there, k)
      ],
    )
  ])
]

-- The decision on a call names a permission of the policy that grants the call and allows it,
-- or it names none and denies the call, and then no permission of the policy grants it.
pub authorize_decision :
    (policy : Policy) (e : KubeEvent)
    → ((p : Permission) × ((authorize policy e).matching_permission ≡ some p)
        × ((authorize policy e).allowed ≡ true)
        × Memᴰ p policy.permissions
        × Matches p e)
      ⊎ (((authorize policy e).matching_permission ≡ none)
          × ((authorize policy e).allowed ≡ false)
          × ¬ Grants policy.permissions e)
unfolding authorize
authorize_decision policy e = first_match_decision policy.permissions e

-- A policy that is made of given permissions allows a call exactly when some given permission
-- grants it: its normal form loses no capability.
pub is_authorized-with_permissions :
    (policy : Policy) (ps : List Permission) (e : KubeEvent)
    → is_authorized (with_permissions policy ps) e ≡ any (λ p. matches p e) ps
unfolding with_permissions make_policy
is_authorized-with_permissions policy ps e =
    is_authorized-eq-any (with_permissions policy ps) e
    ∙ any-normalise (λ p. matches p e) ps (matches_of_SameCapability e)
