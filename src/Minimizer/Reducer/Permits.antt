-- ===== src/Minimizer/Reducer/Permits.antt =====
-- What the permission built for one observed call grants, and when one is built.
use kuber.Base.{Bool-cases, ◌≡◌, refl, sym, ◌∙◌, inl, inr, true, string_eq, contains}
use kuber.Base.Result.{ok, ok-injective, raise≢ok}
use kuber.Models.Event.{KubeEvent}
use kuber.Models.Permission.{Permission}
use kuber.Rbac.Authorization.{resource_name_verbs}
use kuber.Rbac.Authorization.Spec.{Covers-trans, IsNamedVerb, Matches}
use kuber.Rbac.Canonicalizer.{supported_verbs, is_supported_resource}
use kuber.Minimizer.Reducer.{narrow_permission, event_permission}

-- The code supports the call's verb and resource.
pub record IsSupported (e : KubeEvent) : Type 0 where
  pub verb : contains supported_verbs e.verb ≡ true
  pub resource : is_supported_resource e.api_group e.resource ≡ true

pub event_permission-eq-ok :
    (e : KubeEvent) → IsSupported e → event_permission e ≡ ok (narrow_permission e)
unfolding event_permission
event_permission-eq-ok e s = rw (s.verb, s.resource)

-- A permission is built exactly for the supported calls, and it is the narrow one.
pub event_permission_inv :
    (e : KubeEvent) (p : Permission)
    → event_permission e ≡ ok p
    → IsSupported e × (p ≡ narrow_permission e)
unfolding event_permission
event_permission_inv e p h = elim (Bool-cases (contains supported_verbs e.verb)) [
  | inl v ↦ elim (Bool-cases (is_supported_resource e.api_group e.resource)) [
    | inl r ↦ (record { verb = v; resource = r }, sym (ok-injective (rw (v, r) at h)))
    | inr r ↦ absurd (raise≢ok (rw (v, r) at h))
  ]
  | inr v ↦ absurd (raise≢ok (rw v at h))
]

-- A resource name is kept exactly for the verbs that it can restrict.
narrow_name :
    (e : KubeEvent) → IsNamedVerb e.verb → (narrow_permission e).resource_name ≡ e.resource_name
unfolding narrow_permission
narrow_name e v = rw v

-- The narrow permission grants the call that it was built for.
pub narrow-Matches_self : (e : KubeEvent) → Matches (narrow_permission e) e
unfolding narrow_permission
narrow-Matches_self e = record {
  group = inr refl;
  resource = inr refl;
  verb = inr refl;
  namespace = inr refl;
  name = elim (Bool-cases (contains resource_name_verbs e.verb)) [
    | inl v ↦ rw v (inr (refl, refl))
    | inr v ↦ rw v (inl refl)
  ];
}

-- What a permission that grants `e` grants beyond, the narrow permission of `e` does not widen.
pub narrow-Matches_trans :
    (q : Permission) (e f : KubeEvent) → Matches q e → Matches (narrow_permission e) f → Matches q f
unfolding narrow_permission
narrow-Matches_trans q e f given narrow = record {
  group = Covers-trans given.group narrow.group;
  resource = Covers-trans given.resource narrow.resource;
  verb = Covers-trans given.verb narrow.verb;
  namespace = elim given.namespace [
    | inl cluster ↦ inl cluster
    | inr same ↦ elim narrow.namespace [
      | inl cluster ↦ inl (same ∙ cluster)
      | inr one ↦ inr (same ∙ one)
    ]
  ];
  name = elim given.name [
    | inl free ↦ inl free
    | inr (v, same) ↦ elim narrow.name [
      | inl free ↦ inl (same ∙ sym (narrow_name e v) ∙ free)
      | inr (w, one) ↦ inr (w, same ∙ sym (narrow_name e v) ∙ one)
    ]
  ];
}
