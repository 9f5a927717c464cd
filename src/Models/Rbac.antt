-- ===== src/Models/Rbac.antt =====
-- rules_engine/models/rbac.py and workload.py: the RBAC objects that a manifest declares.
use kuber.Base.{
  String, Bool, true, Option, List, ◌≡◌, ◌↔◌, ◌&&◌, arith, Eq, ◌==◌, ==_iff, ==_refl, string_eq,
  subst,
}
use kuber.Models.Policy.{PolicyRule}

pub record ServiceAccountRef : Type 0 where
  pub name : String
  pub namespace : String

pub record ServiceAccountObject : Type 0 where
  pub name : String
  pub namespace : String

pub record RoleObject : Type 0 where
  pub name : String
  pub namespace : Option String
  pub rules : List PolicyRule
  pub cluster_role : Bool

pub record BindingObject : Type 0 where
  pub name : String
  pub namespace : Option String
  pub role_name : String
  pub role_kind : String
  pub subjects : List ServiceAccountRef
  pub cluster_binding : Bool

pub record ParsedRbac : Type 0 where
  pub service_accounts : List ServiceAccountObject
  pub roles : List RoleObject
  pub bindings : List BindingObject

-- The equality that the dataclass `ServiceAccountRef` generates.
abbrev pub account_beq : ServiceAccountRef → ServiceAccountRef → Bool
account_beq a b = a.name == b.name && a.namespace == b.namespace

pub account_beq_iff : (a b : ServiceAccountRef) → (account_beq a b ≡ true) ↔ (a ≡ b)
account_beq_iff a b = (
  λ h. ground (arith, (==_iff a.name b.name).0, (==_iff a.namespace b.namespace).0),
  λ e. subst (λ c. account_beq a c ≡ true) e (simp (==_refl a.name, ==_refl a.namespace)),
)

instance abbrev pub account_eq : Eq ServiceAccountRef
account_eq = record { same = account_beq; same_iff = account_beq_iff }
