-- ===== src/Rbac/Authorization.antt =====
-- rules_engine/rbac/authorization.py: which calls a policy allows.
pub mod Spec
pub mod Laws
use kuber.Base.{
  String, Bool, true, false, not, ◌&&◌, ◌||◌, Option, none, some, List, [], ◌∷◌, ◌==◌, string_eq,
  option_eq, contains, if◌then◌else◌,
}
use kuber.Models.Event.{KubeEvent}
use kuber.Models.Permission.{Permission}
use kuber.Models.Policy.{Policy}

-- RESOURCE_NAME_VERBS
abbrev pub resource_name_verbs : List String
resource_name_verbs = "get" ∷ "update" ∷ "patch" ∷ "delete" ∷ []

pub record AuthorizationDecision : Type 0 where
  pub allowed : Bool
  pub matching_permission : Option Permission
  pub reason : String

-- `granted in {"*", requested}`
abbrev pub covers : String → String → Bool
covers granted requested = contains ("*" ∷ requested ∷ []) granted

-- The test on `permission.namespace`.
abbrev pub namespace_fits : Option String → Option String → Bool
namespace_fits none requested = true
namespace_fits (some n) requested = some n == requested

-- The test on `permission.resource_name`, which asks for the verb first.
abbrev pub name_fits : Option String → KubeEvent → Bool
name_fits none event = true
name_fits (some n) event =
    if not (contains resource_name_verbs event.verb) then false else event.resource_name == some n

unfoldable pub matches : Permission → KubeEvent → Bool
matches permission event =
    if not (covers permission.api_group event.api_group)
    then false
    else if not (covers permission.resource event.resource)
    then false
    else if not (covers permission.verb event.verb)
    then false
    else if not (namespace_fits permission.namespace event.namespace)
    then false
    else name_fits permission.resource_name event

-- The loop of `authorize`.
abbrev pub first_match : List Permission → KubeEvent → AuthorizationDecision
first_match [] event = record {
  allowed = false;
  matching_permission = none;
  reason = "no matching permission";
}
first_match (permission ∷ rest) event =
    if matches permission event
    then record {
      allowed = true;
      matching_permission = some permission;
      reason = "matched deterministic RBAC rule";
    }
    else first_match rest event

unfoldable pub authorize : Policy → KubeEvent → AuthorizationDecision
authorize policy event = first_match policy.permissions event

unfoldable pub is_authorized : Policy → KubeEvent → Bool
unfolding authorize
is_authorized policy event = (authorize policy event).allowed
