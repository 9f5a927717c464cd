-- ===== src/Models/Policy.antt =====
-- rules_engine/models/policy.py: rules, and policies with their permissions in normal form.
pub mod Normal
use kuber.Base.{
  String, ◌≡◌, Bool, true, false, Option, none, some, List, [], ◌∷◌, map, string_eq, option_eq,
  list_eq,
}
use kuber.Base.Dict.Unique.{unique}
use kuber.Base.Sort.{sorted, tuple_leb}
use kuber.Models.Permission.{Permission, key}

pub record PolicyRule : Type 0 where
  pub api_groups : List String
  pub resources : List String
  pub verbs : List String
  pub resource_names : List String

pub record Policy : Type 0 where
  pub permissions : List Permission
  pub name : String
  pub service_account : String
  pub service_account_namespace : String

-- `part or ""`
abbrev pub part_or_empty : Option String → String
part_or_empty none = ""
part_or_empty (some s) = s

-- The sort key of `__post_init__`.
unfoldable pub sort_key : Permission → List String
sort_key p = map part_or_empty (key p)

abbrev pub at_most : Permission → Permission → Bool
at_most p q = tuple_leb (sort_key p) (sort_key q)

-- The permissions that `__post_init__` sets: one for each key, the last one given, in order.
unfoldable pub normalise : List Permission → List Permission
normalise permissions = sorted at_most (unique key permissions)

-- `Policy(permissions=…, name=…, service_account=…, service_account_namespace=…)`
unfoldable pub make_policy : List Permission → String → String → String → Policy
make_policy permissions name account namespace = record {
  permissions = normalise permissions;
  name = name;
  service_account = account;
  service_account_namespace = namespace;
}

unfoldable pub with_permissions : Policy → List Permission → Policy
with_permissions policy permissions =
    make_policy permissions policy.name policy.service_account policy.service_account_namespace
