-- ===== src/Agent/Verifier.antt =====
-- agent_layer/verifier.py: the deterministic repair. (`VerifierAgent.verify` has no caller.)
use kuber.Base.{Bool, true, false, not, ◌||◌, List, [], ◌∷◌, if◌then◌else◌}
use kuber.Base.Result.{Result, raise, value_error}
use kuber.Models.Policy.{Policy}
use kuber.Minimizer.Reducer.{repair_policy}
use kuber.Agent.Environment.{FailureDescription}

abbrev pub is_empty {ℓ} : {A : Type ℓ} → List A → Bool
is_empty [] = true
is_empty (x ∷ xs) = false

unfoldable pub repair : Policy → FailureDescription → Policy → Result Policy
repair candidate failure original =
    if not failure.authorization_denial || is_empty failure.missing_events
    then raise (value_error "failure cannot be repaired deterministically")
    else repair_policy candidate failure.missing_events original
