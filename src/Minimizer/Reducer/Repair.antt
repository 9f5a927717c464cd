-- ===== src/Minimizer/Reducer/Repair.antt =====
-- `repair_policy`: when it returns, and exactly what it adds.
use mathlib.Core.Bool.{false≢true}
use kuber.Base.{
  Bool-cases, or_right, ◌<◌, ◌≡◌, refl, sym, ap, ap₂, subst, ◌∙◌, inl, inr, ◌↔◌, true, false, ◌||◌,
  List, [], ◌∷◌, ◌++◌, map, Memᴰ,
}
use kuber.Base.Lists.{
  length, any, any-intro, any-elim, any-map, any-append, Memᴰ-cons_cases, Memᴰ-map, Memᴰ-map_inv,
}
use kuber.Base.Result.{ok, ok-injective, raise≢ok, >>=-eq-ok}
use kuber.Models.Event.{KubeEvent}
use kuber.Models.Permission.{Permission, key, SameCapability-of_key}
use kuber.Models.Policy.{Policy, make_policy, with_permissions}
use kuber.Models.Policy.Normal.{IsNormal, length-normalise-lt}
use kuber.Rbac.Authorization.{matches, is_authorized}
use kuber.Rbac.Authorization.Spec.{matches_iff}
use kuber.Rbac.Authorization.Laws.{
  is_authorized-eq-any, is_authorized_iff, is_authorized-with_permissions,
  Matches-of_SameCapability,
}
use kuber.Minimizer.Reducer.{narrow_permission, event_permission, repair_additions, repair_policy}
use kuber.Minimizer.Reducer.Permits.{
  event_permission-eq-ok, event_permission_inv, narrow-Matches_self, narrow-Matches_trans,
}
use kuber.Minimizer.Reducer.Observed.{IsUsable}

additions-eq-ok :
    (original : Policy) (missing : List KubeEvent)
    → ((e : KubeEvent) → Memᴰ e missing → IsUsable original e)
    → repair_additions original missing ≡ ok (map narrow_permission missing)
unfolding repair_additions
additions-eq-ok original [] usable = refl
additions-eq-ok original (e ∷ es) usable =
    let first = usable e (Memᴰ.head refl) in
    rw (
      first.authorized,
      event_permission-eq-ok e first.supported,
      additions-eq-ok original es (λ f m. usable f (Memᴰ.tail m)),
    )

additions_inv :
    (original : Policy) (missing : List KubeEvent) {ps : List Permission}
    → repair_additions original missing ≡ ok ps
    → (ps ≡ map narrow_permission missing)
      × ((e : KubeEvent) → Memᴰ e missing → IsUsable original e)
unfolding repair_additions
additions_inv original [] h = (sym (ok-injective h), λ e m. elim m [ ])
additions_inv original (e ∷ es) h = elim (Bool-cases (is_authorized original e)) [
  | inl allowed ↦
      let (p, built, h') = >>=-eq-ok (event_permission e) _ (rw allowed at h) in
      let (ps, rest, h'') = >>=-eq-ok (repair_additions original es) _ h' in
      let (supported, same) = event_permission_inv e p built in
      let (same', usable) = additions_inv original es rest in
      (
        sym (ok-injective h'') ∙ ap₂ (λ a b. a ∷ b) same same',
        λ f m. elim (Memᴰ-cons_cases m) [
          | inl here ↦
              subst (IsUsable original) (sym here)
                (record { authorized = allowed; supported = supported })
          | inr there ↦ usable f there
        ],
      )
  | inr denied ↦ absurd (raise≢ok (rw denied at h))
]

-- The policy that is returned where nothing raises.
abbrev pub repaired : Policy → List KubeEvent → Policy
repaired candidate missing =
    with_permissions candidate (candidate.permissions ++ map narrow_permission missing)

pub repair_policy-eq-ok :
    (candidate original : Policy) (missing : List KubeEvent)
    → ((e : KubeEvent) → Memᴰ e missing → IsUsable original e)
    → repair_policy candidate missing original ≡ ok (repaired candidate missing)
unfolding repair_policy
repair_policy-eq-ok candidate original missing usable = rw (additions-eq-ok original missing usable)

pub repair_policy_inv :
    (candidate original : Policy) (missing : List KubeEvent) {p : Policy}
    → repair_policy candidate missing original ≡ ok p
    → (p ≡ repaired candidate missing) × ((e : KubeEvent) → Memᴰ e missing → IsUsable original e)
unfolding repair_policy
repair_policy_inv candidate original missing h =
    let (ps, built, h') = >>=-eq-ok (repair_additions original missing) _ h in
    let (same, usable) = additions_inv original missing built in
    (
      sym (ok-injective h')
          ∙ ap (λ l. with_permissions candidate (candidate.permissions ++ l)) same,
      usable,
    )

-- A repair is returned exactly when every missing call is allowed by the original policy and
-- supported by the code.
pub repair_policy_iff :
    (candidate original : Policy) (missing : List KubeEvent)
    → ((p : Policy) × (repair_policy candidate missing original ≡ ok p))
      ↔ ((e : KubeEvent) → Memᴰ e missing → IsUsable original e)
repair_policy_iff candidate original missing = (
  λ (p, h). (repair_policy_inv candidate original missing h).1,
  λ usable. (repaired candidate missing, repair_policy-eq-ok candidate original missing usable),
)

pub is_authorized-repaired :
    (candidate : Policy) (missing : List KubeEvent) (f : KubeEvent)
    → is_authorized (repaired candidate missing) f
      ≡ (is_authorized candidate f || any (λ e. matches (narrow_permission e) f) missing)
is_authorized-repaired candidate missing f =
    is_authorized-with_permissions candidate _ f
    ∙ any-append (λ q. matches q f) candidate.permissions (map narrow_permission missing)
    ∙ ap₂ (λ a b. a || b) (sym (is_authorized-eq-any candidate f))
        (any-map (λ q. matches q f) narrow_permission missing)

-- Where a repair is returned, it allows exactly the calls that the candidate allows and those
-- that the narrow permission of some missing call grants.
pub repair_policy_exact :
    (candidate original : Policy) (missing : List KubeEvent) (p : Policy) (f : KubeEvent)
    → repair_policy candidate missing original ≡ ok p
    → is_authorized p f
      ≡ (is_authorized candidate f || any (λ e. matches (narrow_permission e) f) missing)
repair_policy_exact candidate original missing p f h =
    ap (λ q. is_authorized q f) (repair_policy_inv candidate original missing h).0
    ∙ is_authorized-repaired candidate missing f

-- No escalation: where a repair is returned and the candidate allows no call that the original
-- policy does not allow, neither does the repair.
pub repair_policy_no_escalation :
    (candidate original : Policy) (missing : List KubeEvent) (p : Policy)
    → repair_policy candidate missing original ≡ ok p
    → ((f : KubeEvent) → is_authorized candidate f ≡ true → is_authorized original f ≡ true)
    → (f : KubeEvent) → is_authorized p f ≡ true
    → is_authorized original f ≡ true
repair_policy_no_escalation candidate original missing p h within f allowed =
    elim (Bool-cases (is_authorized candidate f)) [
      | inl old ↦ within f old
      | inr new ↦
          let exact = sym (repair_policy_exact candidate original missing p f h) ∙ allowed in
          let (e, m, narrow) =
            any-elim (λ e. matches (narrow_permission e) f) missing (rw new at exact) in
          let usable = (repair_policy_inv candidate original missing h).1 e m in
          let (q, n, grants) = (is_authorized_iff original e).0 usable.authorized in
          (is_authorized_iff original f).1 (
            q,
            n,
            narrow-Matches_trans q e f grants ((matches_iff (narrow_permission e) f).0 narrow),
          )
    ]

pub is_authorized-repaired_missing :
    (candidate : Policy) (missing : List KubeEvent) (e : KubeEvent)
    → Memᴰ e missing
    → is_authorized (repaired candidate missing) e ≡ true
is_authorized-repaired_missing candidate missing e m =
    is_authorized-repaired candidate missing e
    ∙ or_right _ _ (
        any-intro (λ f. matches (narrow_permission f) e) m
          ((matches_iff (narrow_permission e) e).1 (narrow-Matches_self e)))

pub length-repaired-lt :
    (candidate : Policy) (missing : List KubeEvent) (e : KubeEvent)
    → IsNormal candidate.permissions
    → Memᴰ e missing
    → is_authorized candidate e ≡ false
    → length candidate.permissions < length (repaired candidate missing).permissions
unfolding with_permissions make_policy
length-repaired-lt candidate missing e normal m denied =
    length-normalise-lt candidate.permissions (map narrow_permission missing) normal
      (Memᴰ-map narrow_permission m)
      λ n.
        let (q, in_candidate, same) = Memᴰ-map_inv key candidate.permissions n in
        false≢true (
          sym denied
          ∙ (is_authorized_iff candidate e).1 (
            q,
            in_candidate,
            Matches-of_SameCapability (SameCapability-of_key (narrow_permission e) q same)
                (narrow-Matches_self e),
          ))

-- Where a repair is returned, the permissions of the candidate are in normal form, and the
-- candidate denies some missing call, the repair has more permissions than the candidate.
pub repair_policy_grows :
    (candidate original : Policy) (missing : List KubeEvent) (p : Policy) (e : KubeEvent)
    → repair_policy candidate missing original ≡ ok p
    → IsNormal candidate.permissions
    → Memᴰ e missing
    → is_authorized candidate e ≡ false
    → length candidate.permissions < length p.permissions
repair_policy_grows candidate original missing p e h normal m denied =
    subst (λ q. length candidate.permissions < length q.permissions)
      (sym (repair_policy_inv candidate original missing h).0)
      (length-repaired-lt candidate missing e normal m denied)
