-- ===== src/Minimizer/Candidates.antt =====
-- rules_engine/minimizer/candidates.py: the permissions that no observed call needs.
pub mod Removal
use kuber.Base.{
  ℕ, String, Bool, true, false, not, List, [], ◌∷◌, ◌==◌, string_eq, map, if◌then◌else◌,
}
use Prim.Native.Nat.{Ordering, compare}
use kuber.Base.Lists.{any, sum_of}
use kuber.Base.Sort.{sorted, tuple_leb}
use kuber.Models.Event.{KubeEvent}
use kuber.Models.Permission.{Permission}
use kuber.Models.Policy.{Policy, with_permissions, sort_key}
use kuber.Rbac.Authorization.{is_authorized}
use kuber.Risk.Rules.{permission_risk_signals}

pub record CandidateReduction : Type 0 where
  pub permission : Permission
  pub reason : String
  pub risk_value : ℕ

-- `any(is_authorized(single, event) for event in observed)`
unfoldable pub is_needed : Policy → List KubeEvent → Permission → Bool
is_needed policy observed permission =
    let single = with_permissions policy (permission ∷ []) in
    any (λ e. is_authorized single e) observed

abbrev pub reduction : Permission → CandidateReduction
reduction permission = record {
  permission = permission;
  reason = "not required by observed usage";
  risk_value = sum_of (λ s. s.1) (permission_risk_signals permission);
}

-- The loop over the permissions.
unfoldable pub reductions : Policy → List KubeEvent → List Permission → List CandidateReduction
unfolding is_needed
reductions policy observed [] = []
reductions policy observed (permission ∷ rest) =
    let later = reductions policy observed rest in
    if is_needed policy observed permission then later else reduction permission ∷ later

-- The sort key `(-risk_value, *(part or "" for part in permission.key()))`.
abbrev pub riskier : CandidateReduction → CandidateReduction → Bool
riskier a b = elim (compare b.risk_value a.risk_value) [
  | Ordering.lt ↦ true
  | Ordering.eq ↦ tuple_leb (sort_key a.permission) (sort_key b.permission)
  | Ordering.gt ↦ false
]

unfoldable pub candidate_reductions : Policy → List KubeEvent → List CandidateReduction
unfolding reductions
candidate_reductions policy observed =
    sorted riskier (reductions policy observed policy.permissions)
