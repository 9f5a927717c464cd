-- ===== src/Models/Permission.antt =====
-- rules_engine/models/permission.py: one normalised RBAC capability. No namespace means
-- cluster-wide, and `"*"` is a wildcard.
use kuber.Base.{
  String, ◌≡◌, Bool, false, Option, none, some, List, [], ◌∷◌, ◌++◌, arith, if◌then◌else◌,
}
use kuber.Base.Text.{concat, or_else}
use kuber.Models.Event.{display_name}

pub record Permission : Type 0 where
  pub api_group : String
  pub resource : String
  pub verb : String
  pub namespace : Option String
  pub resource_name : Option String
  pub source : Option String

unfoldable pub key_with : Bool → Permission → List (Option String)
key_with include_source p =
    let parts =
      some p.api_group ∷ some p.resource ∷ some p.verb ∷ p.namespace ∷ p.resource_name ∷ [] in
    if include_source then parts ++ p.source ∷ [] else parts

-- `key()`, which leaves the source out.
unfoldable pub key : Permission → List (Option String)
unfolding key_with
key = key_with false

abbrev pub scope : Option String → String
scope none = "cluster-wide"
scope (some n) = or_else n "cluster-wide"

unfoldable pub display : Permission → String
display p = concat (
    p.verb
    ∷ " "
    ∷ or_else p.api_group "core"
    ∷ "/"
    ∷ p.resource
    ∷ display_name p.resource_name
    ∷ " ("
    ∷ scope p.namespace
    ∷ ")"
    ∷ [])

-- Two permissions have one key exactly when they agree on all but the source.
pub record SameCapability (p q : Permission) : Type 0 where
  pub group : p.api_group ≡ q.api_group
  pub resource : p.resource ≡ q.resource
  pub verb : p.verb ≡ q.verb
  pub namespace : p.namespace ≡ q.namespace
  pub resource_name : p.resource_name ≡ q.resource_name

pub SameCapability-of_key : (p q : Permission) → key p ≡ key q → SameCapability p q
unfolding key
SameCapability-of_key p q h = ground arith

pub key_of_SameCapability : {p q : Permission} → SameCapability p q → key p ≡ key q
unfolding key
key_of_SameCapability h = ground arith
