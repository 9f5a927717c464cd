-- ===== src/Risk/Scorer/Totals.antt =====
-- The score adds up: nothing is lost or counted twice when the signals are grouped by reason.
use kuber.Base.{
  Bool-cases, ℕ, ◌+◌, min, String, ◌≡◌, refl, ap, subst, ◌∙◌, inl, inr, List, [], ◌∷◌, ◌++◌, map,
  ◌==◌, string_eq, arith,
}
use kuber.Base.Lists.{flat_map, sum_of, length, IsDistinct}
use kuber.Base.Dict.{get, put, keys, put-IsDistinct}
use kuber.Base.Sort.{sorted, sum_of-sorted, sorted-IsDistinct}
use kuber.Models.Policy.{Policy}
use kuber.Models.Permission.{Permission}
use kuber.Risk.Rules.{permission_risk_signals}
use kuber.Risk.Scorer.{
  Totals, RiskFinding, total_or_zero, add_signal, add_signals, before, finding, score_policy,
}

-- The points of one permission's signals.
abbrev pub permission_risk : Permission → ℕ
permission_risk p = sum_of (λ s. s.1) (permission_risk_signals p)

sum-put :
    (f : ℕ × ℕ → ℕ) (k : String) (v : ℕ × ℕ) (d : Totals)
    → f (0, 0) ≡ 0
    → sum_of (λ i. f i.1) (put k v d) + f (total_or_zero (get k d)) ≡ sum_of (λ i. f i.1) d + f v
unfolding put get
sum-put f k v [] h = omega arith
sum-put f k v ((j, w) ∷ d) h = elim (Bool-cases (j == k)) [
  | inl same ↦ rw same (omega arith)
  | inr other ↦ rw other (omega (arith, sum-put f k v d h))
]

points-add_signal :
    (d : Totals) (s : String × ℕ)
    → sum_of (λ i. i.1.0) (add_signal d s) ≡ sum_of (λ i. i.1.0) d + s.1
unfolding add_signal
points-add_signal d (reason, points) = omega (
  arith,
  sum-put (λ t. t.0) reason
      ((total_or_zero (get reason d)).0 + points, (total_or_zero (get reason d)).1 + 1) d refl,
)

count-add_signal :
    (d : Totals) (s : String × ℕ) → sum_of (λ i. i.1.1) (add_signal d s) ≡ sum_of (λ i. i.1.1) d + 1
unfolding add_signal
count-add_signal d (reason, points) = omega (
  arith,
  sum-put (λ t. t.1) reason
      ((total_or_zero (get reason d)).0 + points, (total_or_zero (get reason d)).1 + 1) d refl,
)

points-add_signals :
    (d : Totals) (ss : List (String × ℕ))
    → sum_of (λ i. i.1.0) (add_signals d ss) ≡ sum_of (λ i. i.1.0) d + sum_of (λ s. s.1) ss
unfolding add_signals
points-add_signals d [] = omega arith
points-add_signals d (s ∷ ss) =
    omega (arith, points-add_signal d s, points-add_signals (add_signal d s) ss)

count-add_signals :
    (d : Totals) (ss : List (String × ℕ))
    → sum_of (λ i. i.1.1) (add_signals d ss) ≡ sum_of (λ i. i.1.1) d + length ss
unfolding add_signals
count-add_signals d [] = omega arith
count-add_signals d (s ∷ ss) =
    omega (arith, count-add_signal d s, count-add_signals (add_signal d s) ss)

sum_of-append {ℓ} :
    {A : Type ℓ} (f : A → ℕ) (xs ys : List A) → sum_of f (xs ++ ys) ≡ sum_of f xs + sum_of f ys
sum_of-append f [] ys = omega arith
sum_of-append f (x ∷ xs) ys = omega (arith, sum_of-append f xs ys)

sum_of-signals :
    (ps : List Permission)
    → sum_of (λ s. s.1) (flat_map permission_risk_signals ps) ≡ sum_of permission_risk ps
sum_of-signals [] = refl
sum_of-signals (p ∷ ps) =
    sum_of-append (λ s. s.1) (permission_risk_signals p) (flat_map permission_risk_signals ps)
    ∙ ap (λ n. permission_risk p + n) (sum_of-signals ps)

sum_of-findings :
    (f : RiskFinding → ℕ) (d : Totals) → sum_of f (map finding d) ≡ sum_of (λ i. f (finding i)) d
sum_of-findings f [] = refl
sum_of-findings f (i ∷ d) = ap (λ n. f (finding i) + n) (sum_of-findings f d)

-- The uncapped score is the sum of the points of every signal of every permission, and the
-- score is that sum, or 100 where it is more.
pub score_policy_total :
    (policy : Policy)
    → ((score_policy policy).uncapped_score ≡ sum_of permission_risk policy.permissions)
      × ((score_policy policy).score ≡ min 100 (sum_of permission_risk policy.permissions))
unfolding score_policy
score_policy_total policy = (total, ap (λ n. min 100 n) total)
  where
    signals : List (String × ℕ)
    signals = flat_map permission_risk_signals policy.permissions

    total :
        sum_of
          (λ (f : RiskFinding). f.points)
          (map finding (sorted before (add_signals [] signals)))
        ≡ sum_of permission_risk policy.permissions
    total =
        sum_of-findings (λ f. f.points) (sorted before (add_signals [] signals))
        ∙ sum_of-sorted before (λ i. i.1.0) (add_signals [] signals)
        ∙ omega (arith, points-add_signals [] signals, sum_of-signals policy.permissions)

IsDistinct-add_signals :
    (d : Totals) (ss : List (String × ℕ))
    → IsDistinct (keys d)
    → IsDistinct (keys (add_signals d ss))
unfolding add_signals add_signal
IsDistinct-add_signals d [] h = h
IsDistinct-add_signals d ((reason, points) ∷ ss) h =
    IsDistinct-add_signals (add_signal d (reason, points)) ss (put-IsDistinct reason _ d h)

keys-eq-map : (d : Totals) → keys d ≡ map (λ i. i.0) d
keys-eq-map [] = refl
keys-eq-map ((k, v) ∷ d) = ap (λ l. k ∷ l) (keys-eq-map d)

reasons-findings :
    (d : Totals) → map (λ i. i.0) d ≡ map (λ (f : RiskFinding). f.reason) (map finding d)
reasons-findings [] = refl
reasons-findings ((k, v) ∷ d) = ap (λ l. k ∷ l) (reasons-findings d)

-- No reason is reported twice, and the occurrences add up to the number of signals of the
-- permissions.
pub score_policy_findings :
    (policy : Policy)
    → IsDistinct (map (λ (f : RiskFinding). f.reason) (score_policy policy).findings)
      × (sum_of (λ (f : RiskFinding). f.occurrences) (score_policy policy).findings
          ≡ length (flat_map permission_risk_signals policy.permissions))
unfolding score_policy
score_policy_findings policy = (distinct, count)
  where
    totals : Totals
    totals = add_signals [] (flat_map permission_risk_signals policy.permissions)

    distinct : IsDistinct (map (λ (f : RiskFinding). f.reason) (map finding (sorted before totals)))
    distinct = subst IsDistinct (reasons-findings (sorted before totals)) (
        sorted-IsDistinct (λ (i : String × (ℕ × ℕ)). i.0) before totals
          (subst IsDistinct (keys-eq-map totals)
            (IsDistinct-add_signals [] (flat_map permission_risk_signals policy.permissions) tt)))

    count :
        sum_of (λ (f : RiskFinding). f.occurrences) (map finding (sorted before totals))
        ≡ length (flat_map permission_risk_signals policy.permissions)
    count =
        sum_of-findings (λ f. f.occurrences) (sorted before totals)
        ∙ sum_of-sorted before (λ i. i.1.1) totals
        ∙ omega (arith, count-add_signals [] (flat_map permission_risk_signals policy.permissions))
