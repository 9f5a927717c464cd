-- ===== src/Tests/Rules.antt =====
-- The rules engine on the samples.
use mathlib.Core.Bool.{false≢true}
use kuber.Base.{
  ap, ◌||◌, min, map, ◌<◌, ◌≡◌, refl, sym, subst, ◌⊎◌, ◌↔◌, true, false, none, some, [], ◌∷◌, Memᴰ,
  string_eq, option_eq, list_eq, ◌==◌,
}
use kuber.Base.Lists.{length, any, IsDistinct, flat_map, sum_of}
use kuber.Base.Dict.{get}
use kuber.Base.Result.{ok}
use kuber.Models.Event.{KubeEvent}
use kuber.Models.Permission.{Permission, key, SameCapability, SameCapability-of_key}
use kuber.Models.Policy.{Policy, with_permissions, normalise, sort_key}
use kuber.Models.Policy.Normal.{IsNormal, normalise-IsNormal, normalise-covers}
use kuber.Rbac.Authorization.{matches, is_authorized, authorize}
use kuber.Rbac.Authorization.Spec.{Matches, matches_iff}
use kuber.Rbac.Authorization.Laws.{
  Grants, is_authorized_iff, is_authorized_mono, Includes, authorize_decision,
  is_authorized-with_permissions,
}
use kuber.Rbac.Canonicalizer.{is_supported_resource, resources_of, expand_policy}
use kuber.Rbac.Canonicalizer.Supported.{IsConcrete}
use kuber.Rbac.Canonicalizer.Expand.{is_authorized-expand, is_authorized-expand_sound}
use kuber.Rbac.Resolver.Resolution.{resolve_iff}
use kuber.Minimizer.Reducer.{narrow_permission, observed_only_policy, repair_policy}
use kuber.Minimizer.Reducer.Observed.{
  IsUsable, narrowed, observed_only-eq-ok, observed_only_exact, observed_only_iff,
  observed_only_keeps, observed_only_no_escalation,
}
use kuber.Minimizer.Reducer.Repair.{
  repaired, repair_policy-eq-ok, is_authorized-repaired_missing, repair_policy_exact,
  repair_policy_no_escalation, repair_policy_iff, repair_policy_grows,
}
use kuber.Risk.Rules.{permission_risk_signals}
use kuber.Risk.Scorer.{RiskFinding, score_policy}
use kuber.Base.Sort.{tuple_leb}
use kuber.Rbac.Resolver.{resolve_effective_policy}
use kuber.Rbac.Resolver.Semantics.{RbacGrants}
use kuber.Minimizer.Candidates.Removal.{reductions_are_safe, without_reductions}
use kuber.Risk.Scorer.Totals.{permission_risk, score_policy_total, score_policy_findings}
use kuber.Samples.{get_pod, get_config, get_secret, grant, initial, pods_only, worker, parsed}

pod-IsUsable : IsUsable initial get_pod
unfolding is_authorized authorize matches is_supported_resource resources_of get
pod-IsUsable = record { authorized = refl; supported = record { verb = refl; resource = refl } }

config-IsUsable : IsUsable initial get_config
unfolding is_authorized authorize matches is_supported_resource resources_of get
config-IsUsable = record { authorized = refl; supported = record { verb = refl; resource = refl } }

pods-IsUsable : (e : KubeEvent) → Memᴰ e (get_pod ∷ []) → IsUsable initial e
pods-IsUsable e (Memᴰ.head same) = subst (IsUsable initial) (sym same) pod-IsUsable
pods-IsUsable e (Memᴰ.tail m) = elim m [ ]

configs-IsUsable : (e : KubeEvent) → Memᴰ e (get_config ∷ []) → IsUsable initial e
configs-IsUsable e (Memᴰ.head same) = subst (IsUsable initial) (sym same) config-IsUsable
configs-IsUsable e (Memᴰ.tail m) = elim m [ ]

wider : Includes initial.permissions pods_only.permissions
wider p (Memᴰ.head same) = (p, Memᴰ.tail (Memᴰ.head same), SameCapability-of_key p p refl)
wider p (Memᴰ.tail m) = elim m [ ]

pod-IsConcrete : IsConcrete get_pod
unfolding is_supported_resource resources_of get
pod-IsConcrete = record {
  supported = refl;
  group = λ h. false≢true (ap (λ g. g == "*") h);
  resource = λ h. false≢true (ap (λ g. g == "*") h);
  verb = refl;
}

pod_in_expansion : is_authorized (expand_policy initial) get_pod ≡ true
unfolding is_authorized authorize matches
pod_in_expansion = is_authorized-expand initial get_pod pod-IsConcrete

pod_policy : observed_only_policy initial (get_pod ∷ []) ≡ ok (narrowed initial (get_pod ∷ []))
pod_policy = observed_only-eq-ok initial (get_pod ∷ []) pods-IsUsable

pod_kept : is_authorized (narrowed initial (get_pod ∷ [])) get_pod ≡ true
pod_kept =
    observed_only_keeps initial (get_pod ∷ []) (narrowed initial (get_pod ∷ [])) get_pod pod_policy
      (Memᴰ.head refl)

config_repair :
    repair_policy pods_only (get_config ∷ []) initial ≡ ok (repaired pods_only (get_config ∷ []))
config_repair = repair_policy-eq-ok pods_only initial (get_config ∷ []) configs-IsUsable

pods-IsNormal : IsNormal pods_only.permissions
pods-IsNormal = record { distinct = (λ m. elim m [ ], tt); in_order = tt }

initial-IsNormal : IsNormal initial.permissions
unfolding tuple_leb sort_key key
initial-IsNormal = record {
  distinct = (
    λ m. elim m [
      | Memᴰ.head same ↦ false≢true (ap (λ k. k == key (grant "*" "pods" none)) same)
      | Memᴰ.tail n ↦ elim n [ ]
    ],
    (λ m. elim m [ ], tt),
  );
  in_order = (refl, tt);
}

matches_iff_example :
    (matches (grant "*" "pods" none) get_pod ≡ true) ↔ Matches (grant "*" "pods" none) get_pod
matches_iff_example = matches_iff (grant "*" "pods" none) get_pod

is_authorized_iff_example :
    (is_authorized initial get_config ≡ true) ↔ Grants initial.permissions get_config
is_authorized_iff_example = is_authorized_iff initial get_config

is_authorized_mono_example : is_authorized initial get_pod ≡ true
unfolding is_authorized authorize matches
is_authorized_mono_example = is_authorized_mono pods_only initial get_pod wider refl

authorize_decision_example :
    ((p : Permission) × ((authorize initial get_secret).matching_permission ≡ some p)
      × ((authorize initial get_secret).allowed ≡ true)
      × Memᴰ p initial.permissions
      × Matches p get_secret)
    ⊎ (((authorize initial get_secret).matching_permission ≡ none)
        × ((authorize initial get_secret).allowed ≡ false)
        × ¬ Grants initial.permissions get_secret)
authorize_decision_example = authorize_decision initial get_secret

is_authorized-with_permissions_example :
    is_authorized (with_permissions initial (grant "get" "secrets" none ∷ [])) get_secret
    ≡ any (λ p. matches p get_secret) (grant "get" "secrets" none ∷ [])
is_authorized-with_permissions_example =
    is_authorized-with_permissions initial (grant "get" "secrets" none ∷ []) get_secret

resolve_iff_example :
    (is_authorized (resolve_effective_policy parsed worker) get_pod ≡ true)
    ↔ RbacGrants parsed worker get_pod
resolve_iff_example = resolve_iff parsed worker get_pod

is_authorized-expand_example :
    is_authorized (expand_policy initial) get_pod ≡ is_authorized initial get_pod
is_authorized-expand_example = is_authorized-expand initial get_pod pod-IsConcrete

is_authorized-expand_sound_example : is_authorized initial get_pod ≡ true
is_authorized-expand_sound_example = is_authorized-expand_sound initial get_pod pod_in_expansion

normalise-IsNormal_example :
    IsNormal (normalise (grant "get" "pods" none ∷ grant "get" "pods" none ∷ []))
normalise-IsNormal_example =
    normalise-IsNormal (grant "get" "pods" none ∷ grant "get" "pods" none ∷ [])

normalise-covers_example :
    (q : Permission) × Memᴰ q (normalise initial.permissions)
    × SameCapability (grant "get" "configmaps" (some "app")) q
normalise-covers_example =
    normalise-covers {p = grant "get" "configmaps" (some "app")} initial.permissions
      (Memᴰ.head refl)

observed_only_exact_example :
    is_authorized (narrowed initial (get_pod ∷ [])) get_secret
    ≡ any (λ e. matches (narrow_permission e) get_secret) (get_pod ∷ [])
observed_only_exact_example =
    observed_only_exact initial (get_pod ∷ []) (narrowed initial (get_pod ∷ [])) get_secret
      pod_policy

observed_only_iff_example :
    ((p : Policy) × (observed_only_policy initial (get_pod ∷ []) ≡ ok p))
    ↔ ((e : KubeEvent) → Memᴰ e (get_pod ∷ []) → IsUsable initial e)
observed_only_iff_example = observed_only_iff initial (get_pod ∷ [])

observed_only_no_escalation_example : is_authorized initial get_pod ≡ true
observed_only_no_escalation_example =
    observed_only_no_escalation initial (get_pod ∷ []) (narrowed initial (get_pod ∷ [])) get_pod
      pod_policy pod_kept

repair_policy_exact_example : is_authorized (repaired pods_only (get_config ∷ [])) get_config ≡ (
    is_authorized pods_only get_config
    || any (λ e. matches (narrow_permission e) get_config) (get_config ∷ []))
repair_policy_exact_example =
    repair_policy_exact pods_only initial (get_config ∷ []) (repaired pods_only (get_config ∷ []))
      get_config config_repair

repair_policy_no_escalation_example : is_authorized initial get_config ≡ true
repair_policy_no_escalation_example =
    repair_policy_no_escalation pods_only initial (get_config ∷ [])
      (repaired pods_only (get_config ∷ [])) config_repair
      (λ f h. is_authorized_mono pods_only initial f wider h) get_config
      (is_authorized-repaired_missing pods_only (get_config ∷ []) get_config (Memᴰ.head refl))

repair_policy_iff_example :
    ((p : Policy) × (repair_policy pods_only (get_config ∷ []) initial ≡ ok p))
    ↔ ((e : KubeEvent) → Memᴰ e (get_config ∷ []) → IsUsable initial e)
repair_policy_iff_example = repair_policy_iff pods_only initial (get_config ∷ [])

repair_policy_grows_example :
    length pods_only.permissions < length (repaired pods_only (get_config ∷ [])).permissions
unfolding is_authorized authorize matches
repair_policy_grows_example =
    repair_policy_grows pods_only initial (get_config ∷ []) (repaired pods_only (get_config ∷ []))
      get_config config_repair pods-IsNormal (Memᴰ.head refl) refl

reductions_are_safe_example :
    is_authorized (without_reductions initial (get_pod ∷ [])) get_pod
    ≡ is_authorized initial get_pod
reductions_are_safe_example = reductions_are_safe initial (get_pod ∷ []) get_pod (Memᴰ.head refl)

score_policy_total_example :
    ((score_policy initial).uncapped_score ≡ sum_of permission_risk initial.permissions)
    × ((score_policy initial).score ≡ min 100 (sum_of permission_risk initial.permissions))
score_policy_total_example = score_policy_total initial

score_policy_findings_example :
    IsDistinct (map (λ (f : RiskFinding). f.reason) (score_policy initial).findings)
    × (sum_of (λ (f : RiskFinding). f.occurrences) (score_policy initial).findings
        ≡ length (flat_map permission_risk_signals initial.permissions))
score_policy_findings_example = score_policy_findings initial
