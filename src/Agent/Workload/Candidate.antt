-- ===== src/Agent/Workload/Candidate.antt =====
-- The candidate policies of the workload graph: each permission is the narrow one of a call that
-- the original policy allows.
use kuber.Base.{
  Bool-cases, ◌≡◌, refl, sym, subst, inl, inr, true, not, ◌||◌, List, [], ◌∷◌, ◌++◌, map, Memᴰ,
  contains, string_eq,
}
use kuber.Base.Lists.{all-intro, Memᴰ-append_cases, Memᴰ-map_inv}
use kuber.Base.Result.{ok, raise≢ok, RaisesValueError, RaisesValueError-bind}
use kuber.Models.Event.{KubeEvent}
use kuber.Models.Permission.{Permission}
use kuber.Models.Policy.{Policy, make_policy, with_permissions}
use kuber.Models.Policy.Normal.{IsNormal, normalise-IsNormal, normalise-subset}
use kuber.Rbac.Authorization.{resource_name_verbs, is_authorized}
use kuber.Rbac.Authorization.Spec.{Matches}
use kuber.Rbac.Authorization.Laws.{is_authorized_iff}
use kuber.Minimizer.Reducer.{
  narrow_permission, event_permission, repair_additions, observed_only_policy, repair_policy,
}
use kuber.Rbac.Canonicalizer.{supported_verbs, is_supported_resource}
use kuber.Minimizer.Reducer.Permits.{narrow-Matches_trans}
use kuber.Minimizer.Reducer.Observed.{IsUsable, observed_only_inv}
use kuber.Minimizer.Reducer.Repair.{repair_policy_inv}
use kuber.Agent.Environment.{FailureDescription}
use kuber.Agent.Verifier.{is_empty, repair}
use kuber.Agent.Workload.Nodes.{candidate_event, is_constrained}

-- The permission is the narrow one of a call that the original policy allows.
abbrev pub IsNarrow : Policy → Permission → Type 0
IsNarrow original p = (e : KubeEvent) × IsUsable original e × (p ≡ narrow_permission e)

pub record IsCandidate (original candidate : Policy) : Type 0 where
  pub narrow : (p : Permission) → Memᴰ p candidate.permissions → IsNarrow original p
  pub normal : IsNormal candidate.permissions

pub observed_only-IsCandidate :
    (original : Policy) (observed : List KubeEvent) {p : Policy}
    → observed_only_policy original observed ≡ ok p
    → IsCandidate original p
unfolding make_policy
observed_only-IsCandidate original observed h =
    let (same, usable) = observed_only_inv original observed h in
    subst (IsCandidate original) (sym same) (record {
      narrow = λ p m.
          (let (e, n, is_narrow) =
              Memᴰ-map_inv narrow_permission observed
                (normalise-subset (map narrow_permission observed) m) in
            (e, usable e n, is_narrow));
      normal = normalise-IsNormal (map narrow_permission observed);
    })

pub repair_policy-IsCandidate :
    (original candidate : Policy) (missing : List KubeEvent) {p : Policy}
    → IsCandidate original candidate
    → repair_policy candidate missing original ≡ ok p
    → IsCandidate original p
unfolding with_permissions make_policy
repair_policy-IsCandidate original candidate missing is_candidate h =
    let (same, usable) = repair_policy_inv candidate original missing h in
    let additions = map narrow_permission missing in
    subst (IsCandidate original) (sym same) (record {
      narrow = λ p m.
          elim (Memᴰ-append_cases candidate.permissions
            (normalise-subset (candidate.permissions ++ additions) m)) [
              | inl old ↦ is_candidate.narrow p old
              | inr new ↦
                  let (e, n, is_narrow) = Memᴰ-map_inv narrow_permission missing new in
                  (e, usable e n, is_narrow)
            ];
      normal = normalise-IsNormal (candidate.permissions ++ additions);
    })

-- `repair` returns what `repair_policy` returns, or raises a `ValueError`.
pub repair-IsCandidate :
    (original candidate : Policy) (failure : FailureDescription) {p : Policy}
    → IsCandidate original candidate
    → repair candidate failure original ≡ ok p
    → IsCandidate original p
unfolding repair
repair-IsCandidate original candidate failure is_candidate h =
    elim (Bool-cases (not failure.authorization_denial || is_empty failure.missing_events)) [
      | inl gives_up ↦ absurd (raise≢ok (rw gives_up at h))
      | inr tries ↦
          repair_policy-IsCandidate original candidate failure.missing_events is_candidate
            (rw tries at h)
    ]

event_permission-RaisesValueError : (e : KubeEvent) → RaisesValueError (event_permission e)
unfolding event_permission
event_permission-RaisesValueError e = elim (Bool-cases (contains supported_verbs e.verb)) [
  | inl v ↦ elim (Bool-cases (is_supported_resource e.api_group e.resource)) [
    | inl r ↦ rw (v, r) tt
    | inr r ↦ rw (v, r) (_, refl)
  ]
  | inr v ↦ rw v (_, refl)
]

additions-RaisesValueError :
    (original : Policy) (missing : List KubeEvent)
    → RaisesValueError (repair_additions original missing)
unfolding repair_additions
additions-RaisesValueError original [] = tt
additions-RaisesValueError original (e ∷ es) = elim (Bool-cases (is_authorized original e)) [
  | inl allowed ↦ rw allowed (
      RaisesValueError-bind (event_permission e) _ (event_permission-RaisesValueError e) λ p.
        RaisesValueError-bind (repair_additions original es) _
          (additions-RaisesValueError original es) λ ps. tt)
  | inr denied ↦ rw denied (_, refl)
]

pub repair-RaisesValueError :
    (original candidate : Policy) (failure : FailureDescription)
    → RaisesValueError (repair candidate failure original)
unfolding repair repair_policy
repair-RaisesValueError original candidate failure =
    elim (Bool-cases (not failure.authorization_denial || is_empty failure.missing_events)) [
      | inl gives_up ↦ rw gives_up (_, refl)
      | inr tries ↦ rw tries (
          RaisesValueError-bind (repair_additions original failure.missing_events) _
            (additions-RaisesValueError original failure.missing_events) λ ps. tt)
    ]

-- The name that is kept is one that the verb can restrict.
candidate_event-Matches :
    (e : KubeEvent) → Matches (narrow_permission e) (candidate_event (narrow_permission e))
unfolding narrow_permission
candidate_event-Matches e = record {
  group = inr refl;
  resource = inr refl;
  verb = inr refl;
  namespace = inr refl;
  name = elim (Bool-cases (contains resource_name_verbs e.verb)) [
    | inl v ↦ inr (v, refl)
    | inr v ↦ inl (rw v refl)
  ];
}

-- A candidate passes `validate`.
pub IsCandidate-is_constrained :
    (original candidate : Policy)
    → IsCandidate original candidate
    → is_constrained original candidate ≡ true
unfolding is_constrained
IsCandidate-is_constrained original candidate is_candidate =
    all-intro (λ e. is_authorized original e) (map candidate_event candidate.permissions)
      λ e m.
        (let (p, n, same) = Memᴰ-map_inv candidate_event candidate.permissions m in
          let (call, usable, is_narrow) = is_candidate.narrow p n in
          let (q, k, given) = (is_authorized_iff original call).0 usable.authorized in
          let grants =
            subst (λ x. Matches q (candidate_event x)) (sym is_narrow)
              (narrow-Matches_trans q call _ given (candidate_event-Matches call)) in
          (is_authorized_iff original e).1 (q, k, subst (Matches q) (sym same) grants))

-- A candidate allows no call that the original policy does not allow.
pub IsCandidate-no_escalation :
    (original candidate : Policy) (f : KubeEvent)
    → IsCandidate original candidate
    → is_authorized candidate f ≡ true
    → is_authorized original f ≡ true
IsCandidate-no_escalation original candidate f is_candidate allowed =
    let (p, m, grants) = (is_authorized_iff candidate f).0 allowed in
    let (e, usable, is_narrow) = is_candidate.narrow p m in
    let (q, n, given) = (is_authorized_iff original e).0 usable.authorized in
    (is_authorized_iff original f).1
      (q, n, narrow-Matches_trans q e f given (subst (λ x. Matches x f) is_narrow grants))
