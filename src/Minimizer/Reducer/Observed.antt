-- ===== src/Minimizer/Reducer/Observed.antt =====
-- `observed_only_policy`: when it returns, and exactly what the policy allows that it returns.
use kuber.Base.{
  Bool-cases, ◌≡◌, refl, sym, ap, subst, ◌∙◌, inl, inr, ◌↔◌, true, not, List, [], ◌∷◌, map, Memᴰ,
}
use kuber.Base.Lists.{any, any-intro, any-elim, any-map, filter, filter-intro}
use kuber.Base.Text.{concat}
use kuber.Base.Result.{
  ok, ok-injective, raise≢ok, >>=-eq-ok, map_result, map_result-eq-ok, map_result_inv,
}
use kuber.Models.Event.{KubeEvent}
use kuber.Models.Policy.{Policy, make_policy}
use kuber.Models.Policy.Normal.{any-normalise}
use kuber.Rbac.Authorization.{matches, is_authorized}
use kuber.Rbac.Authorization.Spec.{matches_iff}
use kuber.Rbac.Authorization.Laws.{
  is_authorized-eq-any, is_authorized_iff, matches_of_SameCapability,
}
use kuber.Minimizer.Reducer.{
  narrow_permission, event_permission, observed_only_policy, all_authorized,
}
use kuber.Minimizer.Reducer.Permits.{
  IsSupported, event_permission-eq-ok, event_permission_inv, narrow-Matches_self,
  narrow-Matches_trans,
}

-- The current policy allows the call, and the code supports it.
pub record IsUsable (current : Policy) (e : KubeEvent) : Type 0 where
  pub authorized : is_authorized current e ≡ true
  pub supported : IsSupported e

-- The policy that is returned where nothing raises.
abbrev pub narrowed : Policy → List KubeEvent → Policy
narrowed current observed =
    make_policy (map narrow_permission observed) (concat (current.service_account ∷ "-kuber" ∷ []))
      current.service_account current.service_account_namespace

rejected_none :
    (current : Policy) (observed : List KubeEvent)
    → ((e : KubeEvent) → Memᴰ e observed → is_authorized current e ≡ true)
    → filter (λ e. not (is_authorized current e)) observed ≡ []
rejected_none current [] h = refl
rejected_none current (e ∷ es) h =
    rw (h e (Memᴰ.head refl)) (rejected_none current es (λ f m. h f (Memᴰ.tail m)))

pub observed_only-eq-ok :
    (current : Policy) (observed : List KubeEvent)
    → ((e : KubeEvent) → Memᴰ e observed → IsUsable current e)
    → observed_only_policy current observed ≡ ok (narrowed current observed)
unfolding observed_only_policy
observed_only-eq-ok current observed usable = rw (
  rejected_none current observed (λ e m. (usable e m).authorized),
  map_result-eq-ok event_permission narrow_permission observed
      (λ e m. event_permission-eq-ok e (usable e m).supported),
)

none_rejected : (rejected : List KubeEvent) → all_authorized rejected ≡ ok tt → rejected ≡ []
none_rejected [] h = refl
none_rejected (e ∷ es) h = absurd (raise≢ok h)

authorized_of_none :
    (current : Policy) (observed : List KubeEvent)
    → all_authorized (filter (λ e. not (is_authorized current e)) observed) ≡ ok tt
    → (e : KubeEvent) → Memᴰ e observed
    → is_authorized current e ≡ true
authorized_of_none current observed h e m = elim (Bool-cases (is_authorized current e)) [
  | inl yes' ↦ yes'
  | inr no' ↦
      let rejects = λ (f : KubeEvent). not (is_authorized current f) in
      let found : Memᴰ e (filter rejects observed) = filter-intro rejects m (rw no') in
      elim (subst (Memᴰ e) (none_rejected (filter rejects observed) h) found) [ ]
]

pub observed_only_inv :
    (current : Policy) (observed : List KubeEvent) {p : Policy}
    → observed_only_policy current observed ≡ ok p
    → (p ≡ narrowed current observed) × ((e : KubeEvent) → Memᴰ e observed → IsUsable current e)
unfolding observed_only_policy
observed_only_inv current observed h =
    let (u, checked, h') =
      >>=-eq-ok (all_authorized (filter (λ e. not (is_authorized current e)) observed)) _ h in
    let (ps, built, h'') = >>=-eq-ok (map_result event_permission observed) _ h' in
    let (same, supported) =
      map_result_inv event_permission narrow_permission IsSupported observed event_permission_inv
        built in
    (
      sym (ok-injective h'')
          ∙ ap
              (λ l.
                make_policy l (concat (current.service_account ∷ "-kuber" ∷ []))
                  current.service_account current.service_account_namespace)
              same,
      λ e m. record {
        authorized = authorized_of_none current observed checked e m;
        supported = supported e m;
      },
    )

-- Where the policy for observed calls is returned, it allows exactly the calls that the narrow
-- permission of some observed call grants.
pub observed_only_exact :
    (current : Policy) (observed : List KubeEvent) (p : Policy) (f : KubeEvent)
    → observed_only_policy current observed ≡ ok p
    → is_authorized p f ≡ any (λ e. matches (narrow_permission e) f) observed
unfolding make_policy
observed_only_exact current observed p f h =
    ap (λ q. is_authorized q f) (observed_only_inv current observed h).0
    ∙ is_authorized-eq-any (narrowed current observed) f
    ∙ any-normalise (λ q. matches q f) (map narrow_permission observed)
        (matches_of_SameCapability f)
    ∙ any-map (λ q. matches q f) narrow_permission observed

-- The policy for observed calls is returned exactly when every observed call is allowed by the
-- current policy and supported by the code.
pub observed_only_iff :
    (current : Policy) (observed : List KubeEvent)
    → ((p : Policy) × (observed_only_policy current observed ≡ ok p))
      ↔ ((e : KubeEvent) → Memᴰ e observed → IsUsable current e)
observed_only_iff current observed = (
  λ (p, h). (observed_only_inv current observed h).1,
  λ usable. (narrowed current observed, observed_only-eq-ok current observed usable),
)

-- Where the policy for observed calls is returned, it allows every observed call.
pub observed_only_keeps :
    (current : Policy) (observed : List KubeEvent) (p : Policy) (e : KubeEvent)
    → observed_only_policy current observed ≡ ok p
    → Memᴰ e observed
    → is_authorized p e ≡ true
observed_only_keeps current observed p e h m =
    observed_only_exact current observed p e h
    ∙ any-intro (λ f. matches (narrow_permission f) e) m
        ((matches_iff (narrow_permission e) e).1 (narrow-Matches_self e))

-- No escalation: where the policy for observed calls is returned, each call that it allows is
-- one that the current policy allows.
pub observed_only_no_escalation :
    (current : Policy) (observed : List KubeEvent) (p : Policy) (f : KubeEvent)
    → observed_only_policy current observed ≡ ok p
    → is_authorized p f ≡ true
    → is_authorized current f ≡ true
observed_only_no_escalation current observed p f h allowed =
    let (e, m, narrow) =
      any-elim (λ e. matches (narrow_permission e) f) observed
        (sym (observed_only_exact current observed p f h) ∙ allowed) in
    let usable = (observed_only_inv current observed h).1 e m in
    let (q, n, grants) = (is_authorized_iff current e).0 usable.authorized in
    (is_authorized_iff current f).1
      (q, n, narrow-Matches_trans q e f grants ((matches_iff (narrow_permission e) f).0 narrow))
