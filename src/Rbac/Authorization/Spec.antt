-- ===== src/Rbac/Authorization/Spec.antt =====
-- What a permission grants, as a statement about its fields, and that the code decides it.
use kuber.Base.{
  Bool-cases, String, ◌≡◌, refl, sym, subst, ◌↔◌, ◌⊎◌, inl, inr, Bool, true, false, not, Option,
  none, some, ==_iff, string_eq, option_eq, contains, arith, if◌then◌else◌,
}
use mathlib.Core.Bool.{false≢true}
use kuber.Models.Event.{KubeEvent}
use kuber.Models.Permission.{Permission}
use kuber.Rbac.Authorization.{resource_name_verbs, covers, namespace_fits, name_fits, matches}

-- A wildcard or the value itself.
abbrev pub Covers : String → String → Type 0
Covers granted requested = (granted ≡ "*") ⊎ (granted ≡ requested)

pub Covers-trans : {a b c : String} → Covers a b → Covers b c → Covers a c
Covers-trans (inl star) k = inl star
Covers-trans {c = c} (inr same) k = subst (λ x. Covers x c) (sym same) k

-- `get`, `update`, `patch` and `delete` are the verbs that a resource name can restrict.
abbrev pub IsNamedVerb : String → Type 0
IsNamedVerb verb = contains resource_name_verbs verb ≡ true

pub record Matches (p : Permission) (e : KubeEvent) : Type 0 where
  pub group : Covers p.api_group e.api_group
  pub resource : Covers p.resource e.resource
  pub verb : Covers p.verb e.verb
  pub namespace : (p.namespace ≡ none) ⊎ (p.namespace ≡ e.namespace)
  pub name : (p.resource_name ≡ none) ⊎ (IsNamedVerb e.verb × (p.resource_name ≡ e.resource_name))

covers_iff : (g r : String) → (covers g r ≡ true) ↔ Covers g r
covers_iff g r = (
  λ h. ground (arith, (==_iff "*" g).0, (==_iff r g).0),
  λ h. elim h [
    | inl e ↦ rw ((==_iff "*" g).1 (sym e))
    | inr e ↦ ground (arith, (==_iff r g).1 (sym e))
  ],
)

namespace_fits_iff : (n r : Option String) → (namespace_fits n r ≡ true) ↔ ((n ≡ none) ⊎ (n ≡ r))
namespace_fits_iff none r = (λ h. inl refl, λ h. refl)
namespace_fits_iff (some n) r = (
  λ h. inr ((==_iff (some n) r).0 h),
  λ h. elim h [ inl e ↦ cc | inr e ↦ (==_iff (some n) r).1 e ],
)

name_fits_iff :
    (n : Option String) (e : KubeEvent)
    → (name_fits n e ≡ true) ↔ ((n ≡ none) ⊎ (IsNamedVerb e.verb × (n ≡ e.resource_name)))
name_fits_iff none e = (λ h. inl refl, λ h. refl)
name_fits_iff (some n) e = (
  λ h. elim (Bool-cases (contains resource_name_verbs e.verb)) [
    | inl v ↦ inr (v, sym ((==_iff e.resource_name (some n)).0 (rw v at h)))
    | inr v ↦ absurd (false≢true (rw v at h))
  ],
  λ h. elim h [ inl k ↦ cc | inr k ↦ rw k.0 ((==_iff e.resource_name (some n)).1 (sym k.1)) ],
)

-- The chain of early returns passes when every test does.
early_returns :
    (a b c d e : Bool)
    → (if not a
        then false
        else if not b
        then false
        else if not c
        then false
        else if not d
        then false
        else e)
      ≡ true
    → (a ≡ true) × (b ≡ true) × (c ≡ true) × (d ≡ true) × (e ≡ true)
early_returns a b c d e h = ground arith

matches_sound : (p : Permission) (e : KubeEvent) → matches p e ≡ true → Matches p e
unfolding matches
matches_sound p e h =
    let (group, resource, verb, namespace, name) = early_returns _ _ _ _ _ h in
    record {
      group = (covers_iff p.api_group e.api_group).0 group;
      resource = (covers_iff p.resource e.resource).0 resource;
      verb = (covers_iff p.verb e.verb).0 verb;
      namespace = (namespace_fits_iff p.namespace e.namespace).0 namespace;
      name = (name_fits_iff p.resource_name e).0 name;
    }

matches_complete : (p : Permission) (e : KubeEvent) → Matches p e → matches p e ≡ true
unfolding matches
matches_complete p e m =
    rw
      (
        (covers_iff p.api_group e.api_group).1 m.group,
        (covers_iff p.resource e.resource).1 m.resource,
        (covers_iff p.verb e.verb).1 m.verb,
        (namespace_fits_iff p.namespace e.namespace).1 m.namespace,
      )
      ((name_fits_iff p.resource_name e).1 m.name)

-- The test of a permission against a call passes exactly when group, resource and verb are
-- covered, the namespace fits, and a resource name, where there is one, is that of the call and
-- the verb is one that a name can restrict.
pub matches_iff : (p : Permission) (e : KubeEvent) → (matches p e ≡ true) ↔ Matches p e
matches_iff p e = (matches_sound p e, matches_complete p e)
