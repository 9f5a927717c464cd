-- ===== src/Rbac/Canonicalizer/Supported.antt =====
-- What the tests of the canonicalizer say of a call without wildcards.
use mathlib.Core.Bool.{false≢true}
use kuber.Base.{
  String, Bool-cases, ◌≡◌, ◌≢◌, subst, inl, inr, true, false, Option-cases, List, Memᴰ, ◌==◌,
  ==_iff, string_eq, contains,
}
use kuber.Base.Dict.{get, get-Memᴰ, keys}
use kuber.Models.Event.{KubeEvent}
use kuber.Rbac.Canonicalizer.{
  supported_resources, supported_verbs, resources_of, or_empty, is_supported_resource,
}

-- A call as a client makes it: a supported group, resource and verb, and none of them `"*"`.
pub record IsConcrete (e : KubeEvent) : Type 0 where
  pub supported : is_supported_resource e.api_group e.resource ≡ true
  pub group : e.api_group ≢ "*"
  pub resource : e.resource ≢ "*"
  pub verb : contains supported_verbs e.verb ≡ true

pub eq_false : {a b : String} → a ≢ b → (a == b) ≡ false
eq_false {a} {b} h = elim (Bool-cases (a == b)) [
  | inl same ↦ absurd (h ((==_iff a b).0 same))
  | inr other ↦ other
]

-- The table row of a group that has a resource.
pub row_of_resource :
    (g r : String)
    → contains (resources_of g) r ≡ true
    → (rs : List String) × Memᴰ (g, rs) supported_resources × (contains rs r ≡ true)
unfolding resources_of
row_of_resource g r h = elim (Option-cases (get g supported_resources)) [
  | inl missing ↦ absurd (false≢true (subst (λ o. contains (or_empty o) r ≡ true) missing h))
  | inr (rs, found) ↦ (
    rs,
    get-Memᴰ g supported_resources found,
    subst (λ o. contains (or_empty o) r ≡ true) found h,
  )
]

pub concrete_group :
    (e : KubeEvent) → IsConcrete e → contains (keys supported_resources) e.api_group ≡ true
unfolding is_supported_resource
concrete_group e c = elim (Bool-cases (contains (keys supported_resources) e.api_group)) [
  | inl h ↦ h
  | inr h ↦ absurd (false≢true (rw (eq_false c.group, h) at (c.supported)))
]

pub concrete_resource :
    (e : KubeEvent) → IsConcrete e → contains (resources_of e.api_group) e.resource ≡ true
unfolding is_supported_resource
concrete_resource e c =
    rw (eq_false c.group, concrete_group e c, eq_false c.resource) at (c.supported)
