-- ===== src/Risk/Scorer.antt =====
-- rules_engine/risk/scorer.py: the signals of a policy, added up by reason.
pub mod Totals
use Prim.Native.String.{compare}
use Prim.Native.Nat.{Ordering, compare as compare_ℕ}
use kuber.Base.{
  ℕ, ◌+◌, min, String, Bool, true, false, Option, none, some, List, [], ◌∷◌, ◌++◌, map, ◌==◌,
  string_eq, if◌then◌else◌,
}
use kuber.Base.Lists.{flat_map, sum_of}
use kuber.Base.Dict.{Dict, get, put}
use kuber.Base.Sort.{sorted}
use kuber.Models.Policy.{Policy}
use kuber.Risk.Rules.{permission_risk_signals}

pub record RiskFinding : Type 0 where
  pub reason : String
  pub points : ℕ
  pub occurrences : ℕ

pub record RiskAssessment : Type 0 where
  pub score : ℕ
  pub uncapped_score : ℕ
  pub findings : List RiskFinding
  pub heuristic : String

-- `totals[reason]` of the `defaultdict`: points and occurrences.
abbrev pub total_or_zero : Option (ℕ × ℕ) → ℕ × ℕ
total_or_zero none = (0, 0)
total_or_zero (some t) = t

abbrev pub Totals : Type 0
Totals = Dict String (ℕ × ℕ)

-- The body of the inner loop.
unfoldable pub add_signal : Totals → String × ℕ → Totals
unfolding get put
add_signal totals (reason, points) =
    let (sum, count) = total_or_zero (get reason totals) in
    put reason (sum + points, count + 1) totals

-- Both loops, over the signals of the permissions in order.
unfoldable pub add_signals : Totals → List (String × ℕ) → Totals
unfolding add_signal
add_signals totals [] = totals
add_signals totals (signal ∷ rest) = add_signals (add_signal totals signal) rest

-- The sort key `(-points, reason)`.
abbrev pub before : String × (ℕ × ℕ) → String × (ℕ × ℕ) → Bool
before a b = elim (compare_ℕ b.1.0 a.1.0) [
  | Ordering.lt ↦ true
  | Ordering.eq ↦ elim (compare a.0 b.0) [ Ordering.gt ↦ false | _ ↦ true ]
  | Ordering.gt ↦ false
]

abbrev pub finding : String × (ℕ × ℕ) → RiskFinding
finding item = record { reason = item.0; points = item.1.0; occurrences = item.1.1 }

unfoldable pub score_policy : Policy → RiskAssessment
unfolding add_signals sorted permission_risk_signals
score_policy policy =
    let totals = add_signals [] (flat_map permission_risk_signals policy.permissions) in
    let findings = map finding (sorted before totals) in
    let uncapped = sum_of (λ (f : RiskFinding). f.points) findings in
    record {
      score = min 100 uncapped;
      uncapped_score = uncapped;
      findings = findings;
      heuristic = "Kuber benchmark heuristic v1 (not an industry standard)";
    }
