-- ===== src/Risk/Rules.antt =====
-- rules_engine/risk/rules.py: the signals of one permission, each with its points.
use text.Mathlib.Text.{starts_with}
use kuber.Base.{
  ℕ, String, Bool, false, ◌&&◌, ◌||◌, not, Option, none, some, List, [], ◌∷◌, ◌++◌, ◌==◌, string_eq,
  option_eq, contains, if◌then◌else◌,
}
use kuber.Base.Text.{concat}
use kuber.Models.Permission.{Permission}

-- MUTATING_VERBS
abbrev pub mutating_verbs : List String
mutating_verbs = "create" ∷ "update" ∷ "patch" ∷ "delete" ∷ "*" ∷ []

-- `if test: signals.append(signal)`
abbrev pub signal_if : Bool → String → ℕ → List (String × ℕ)
signal_if test reason points = if test then (reason, points) ∷ [] else []

abbrev pub is_cluster_grant : Option String → Bool
is_cluster_grant none = false
is_cluster_grant (some s) = not (s == "") && starts_with s "ClusterRoleBinding/"

unfoldable pub permission_risk_signals : Permission → List (String × ℕ)
permission_risk_signals p =
    signal_if (p.verb == "*") "wildcard verbs" 20
    ++ signal_if (p.resource == "*" || p.api_group == "*") "wildcard resources/API groups" 25
    ++ signal_if (p.namespace == none) "cluster-wide scope" 8
    ++ signal_if (is_cluster_grant p.source) "ClusterRoleBinding grant" 5
    ++ signal_if (p.resource == "secrets") (concat (p.verb ∷ " secrets" ∷ []))
        (if contains ("get" ∷ "list" ∷ "watch" ∷ "*" ∷ []) p.verb then 8 else 12)
    ++ signal_if (contains mutating_verbs p.verb) (concat ("mutating verb: " ∷ p.verb ∷ [])) 4
    ++ signal_if (contains ("delete" ∷ "*" ∷ []) p.verb) "delete capability" 5
    ++ signal_if
        (contains ("roles" ∷ "clusterroles" ∷ "rolebindings" ∷ "clusterrolebindings" ∷ [])
          p.resource)
        "RBAC modification capability" 20
