-- ===== src/Minimizer/Candidates/Removal.antt =====
-- What is proposed for removal, and that observed calls survive the removal of all of it.
use mathlib.Core.Bool.{false≢true}
use kuber.Base.{
  Bool-cases, bool_ext, or_false, contains, contains_iff, string_eq, option_eq, list_eq, ◌≡◌, refl,
  sym, ap, subst, ◌∙◌, inl, inr, ◌↔◌, Bool, true, false, not, List, [], ◌∷◌, map, Memᴰ,
}
use kuber.Base.Lists.{
  any, any-intro, any-elim, any_congr, filter, filter-intro, filter-elim, Memᴰ-map_inv,
  Memᴰ-cons_cases,
}
use kuber.Base.Sort.{Memᴰ-sorted, Memᴰ-sorted_inv}
use kuber.Models.Event.{KubeEvent}
use kuber.Models.Permission.{Permission, key, SameCapability-of_key}
use kuber.Models.Policy.{Policy, with_permissions}
use kuber.Rbac.Authorization.{matches, is_authorized}
use kuber.Rbac.Authorization.Laws.{
  matches_of_SameCapability, is_authorized-eq-any, is_authorized-with_permissions,
}
use kuber.Minimizer.Candidates.{
  CandidateReduction, is_needed, reduction, reductions, riskier, candidate_reductions,
}

is_needed-eq-any :
    (policy : Policy) (observed : List KubeEvent) (p : Permission)
    → is_needed policy observed p ≡ any (λ e. matches p e) observed
unfolding is_needed
is_needed-eq-any policy observed p =
    any_congr _ _ observed
      λ e m. is_authorized-with_permissions policy (p ∷ []) e ∙ or_false (matches p e)

reductions_inv :
    (policy : Policy) (observed : List KubeEvent) (ps : List Permission) {r : CandidateReduction}
    → Memᴰ r (reductions policy observed ps)
    → Memᴰ r.permission ps × (is_needed policy observed r.permission ≡ false)
unfolding reductions
reductions_inv policy observed [] m = elim m [ ]
reductions_inv policy observed (p ∷ ps) {r} m = elim (Bool-cases (is_needed policy observed p)) [
  | inl needed ↦ let (n, k) = reductions_inv policy observed ps (rw needed at m) in (Memᴰ.tail n, k)
  | inr spare ↦ elim (Memᴰ-cons_cases (rw spare at m)) [
    | inl here ↦ (
      Memᴰ.head (ap (λ (c : CandidateReduction). c.permission) here),
      subst (λ (c : CandidateReduction). is_needed policy observed c.permission ≡ false) (sym here)
          spare,
    )
    | inr there ↦ let (n, k) = reductions_inv policy observed ps there in (Memᴰ.tail n, k)
  ]
]

reductions-intro :
    (policy : Policy) (observed : List KubeEvent) {p : Permission} {ps : List Permission}
    → Memᴰ p ps
    → is_needed policy observed p ≡ false
    → Memᴰ (reduction p) (reductions policy observed ps)
unfolding reductions
reductions-intro policy observed (Memᴰ.head {x = q} here) spare =
    let spare' : is_needed policy observed q ≡ false =
      subst (λ x. is_needed policy observed x ≡ false) here spare in
    rw spare' (Memᴰ.head (ap reduction here))
reductions-intro policy observed (Memᴰ.tail {x = q} m) spare =
    elim (Bool-cases (is_needed policy observed q)) [
      | inl k ↦ rw k (reductions-intro policy observed m spare)
      | inr k ↦ rw k (Memᴰ.tail (reductions-intro policy observed m spare))
    ]

-- A permission is proposed for removal exactly when it is one of the policy and grants no
-- observed call.
pub candidate_reductions_iff :
    (policy : Policy) (observed : List KubeEvent) (p : Permission)
    → ((r : CandidateReduction) × Memᴰ r (candidate_reductions policy observed)
        × (r.permission ≡ p))
      ↔ (Memᴰ p policy.permissions × (any (λ e. matches p e) observed ≡ false))
unfolding candidate_reductions
candidate_reductions_iff policy observed p = (
  λ (r, m, same).
      let (n, spare) =
        reductions_inv policy observed policy.permissions (Memᴰ-sorted_inv riskier _ m) in
      (
        subst (λ q. Memᴰ q policy.permissions) same n,
        subst (λ q. any (λ e. matches q e) observed ≡ false) same
            (sym (is_needed-eq-any policy observed r.permission) ∙ spare),
      ),
  λ (m, spare). (
    reduction p,
    Memᴰ-sorted riskier _
        (reductions-intro policy observed m (is_needed-eq-any policy observed p ∙ spare)),
    refl,
  ),
)

-- The policy without the permissions that are proposed for removal.
abbrev pub is_kept : Policy → List KubeEvent → Permission → Bool
is_kept policy observed p =
    not (contains (map (λ r. key r.permission) (candidate_reductions policy observed)) (key p))

abbrev pub without_reductions : Policy → List KubeEvent → Policy
without_reductions policy observed =
    with_permissions policy (filter (is_kept policy observed) policy.permissions)

-- A permission that grants an observed call shares its capability with no proposed one.
kept_of_match :
    (policy : Policy) (observed : List KubeEvent) (p : Permission) (e : KubeEvent)
    → Memᴰ e observed
    → matches p e ≡ true
    → is_kept policy observed p ≡ true
kept_of_match policy observed p e m grants =
    let proposed =
      map (λ (r : CandidateReduction). key r.permission) (candidate_reductions policy observed) in
    elim (Bool-cases (contains proposed (key p))) [
      | inr absent ↦ rw absent
      | inl present ↦
          let (r, n, same) =
            Memᴰ-map_inv (λ (r : CandidateReduction). key r.permission)
              (candidate_reductions policy observed) ((contains_iff proposed (key p)).0 present) in
          let spare = ((candidate_reductions_iff policy observed r.permission).0 (r, n, refl)).1 in
          let alike =
            matches_of_SameCapability e p r.permission
              (SameCapability-of_key p r.permission same) in
          absurd (
            false≢true (sym spare ∙ any-intro (λ f. matches r.permission f) m (sym alike ∙ grants)))
    ]

-- Removing every permission that is proposed for removal changes no decision on an observed
-- call.
pub reductions_are_safe :
    (policy : Policy) (observed : List KubeEvent) (e : KubeEvent)
    → Memᴰ e observed
    → is_authorized (without_reductions policy observed) e ≡ is_authorized policy e
reductions_are_safe policy observed e m =
    is_authorized-with_permissions policy (filter (is_kept policy observed) policy.permissions) e
    ∙ bool_ext _ _
        (λ h.
          let (p, n, grants) =
            any-elim (λ p. matches p e) (filter (is_kept policy observed) policy.permissions) h in
          any-intro (λ p. matches p e)
            (filter-elim (is_kept policy observed) policy.permissions n).0 grants)
        (λ h.
          let (p, n, grants) = any-elim (λ p. matches p e) policy.permissions h in
          any-intro (λ p. matches p e)
            (filter-intro (is_kept policy observed) n (kept_of_match policy observed p e m grants))
            grants)
    ∙ sym (is_authorized-eq-any policy e)
