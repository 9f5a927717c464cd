-- ===== src/Minimizer/Reducer.antt =====
-- rules_engine/minimizer/reducer.py: the policy that observed calls need, and its repair.
pub mod Permits
pub mod Observed
pub mod Repair
use kuber.Base.{
  String, Bool, not, Option, none, some, List, [], ◌∷◌, ◌++◌, map, ◌==◌, string_eq, contains,
  if◌then◌else◌,
}
use kuber.Base.Lists.{filter}
use kuber.Base.Text.{concat, join, or_else}
use kuber.Base.Result.{Result, ok, raise, value_error, ◌>>=◌, ◌>>◌, map_result}
use kuber.Models.Event.{KubeEvent, display}
use kuber.Models.Permission.{Permission}
use kuber.Models.Policy.{Policy, make_policy, with_permissions}
use kuber.Rbac.Authorization.{is_authorized}
use kuber.Rbac.Canonicalizer.{supported_verbs, is_supported_resource}

-- RESOURCE_NAME_SAFE_VERBS
abbrev pub resource_name_safe_verbs : List String
resource_name_safe_verbs = "get" ∷ "update" ∷ "patch" ∷ "delete" ∷ []

-- The permission that `event_permission` builds once its tests have passed.
unfoldable pub narrow_permission : KubeEvent → Permission
narrow_permission event = record {
  api_group = event.api_group;
  resource = event.resource;
  verb = event.verb;
  namespace = event.namespace;
  resource_name =
      if contains resource_name_safe_verbs event.verb then event.resource_name else none;
  source = some "Kuber/verified";
}

unfoldable pub event_permission : KubeEvent → Result Permission
event_permission event =
    if not (contains supported_verbs event.verb)
    then raise (value_error (concat ("unsupported observed verb: " ∷ event.verb ∷ [])))
    else if not (is_supported_resource event.api_group event.resource)
    then raise (
        value_error (
          concat (
            "unsupported observed resource: "
            ∷ or_else event.api_group "core"
            ∷ "/"
            ∷ event.resource
            ∷ [])))
    else ok (narrow_permission event)

-- The test on `unauthorized`.
abbrev pub all_authorized : List KubeEvent → Result (Unit {0})
all_authorized [] = ok tt
all_authorized (event ∷ rest) = raise (
    value_error (
      concat (
        "observed usage is not authorized by the current policy: "
        ∷ join ", " (map display (event ∷ rest))
        ∷ [])))

unfoldable pub observed_only_policy : Policy → List KubeEvent → Result Policy
observed_only_policy current observed = do
  all_authorized (filter (λ e. not (is_authorized current e)) observed)
  permissions ← map_result event_permission observed
  ok (
      make_policy permissions (concat (current.service_account ∷ "-kuber" ∷ []))
        current.service_account current.service_account_namespace)

-- The loop of `repair_policy`.
unfoldable pub repair_additions : Policy → List KubeEvent → Result (List Permission)
repair_additions original [] = ok []
repair_additions original (event ∷ rest) =
    let later = repair_additions original rest in
    if not (is_authorized original event)
    then raise (
        value_error (
          concat
            ("refusing to invent permission absent from original policy: " ∷ display event ∷ [])))
    else do addition ← event_permission event; additions ← later; ok (addition ∷ additions)

unfoldable pub repair_policy : Policy → List KubeEvent → Policy → Result Policy
repair_policy candidate missing_events original = do
  additions ← repair_additions original missing_events
  ok (with_permissions candidate (candidate.permissions ++ additions))
