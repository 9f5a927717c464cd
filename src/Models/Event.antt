-- ===== src/Models/Event.antt =====
-- rules_engine/models/event.py: a normalised Kubernetes API call.
use kuber.Base.{
  String, ◌≡◌, ◌↔◌, Bool, Option, none, some, [], ◌∷◌, ◌&&◌, arith, Eq, ◌==◌, ==_iff, ==_refl,
  subst, string_eq, option_eq, true, if◌then◌else◌,
}
use kuber.Base.Text.{concat, or_else}

pub record KubeEvent : Type 0 where
  pub api_group : String
  pub resource : String
  pub verb : String
  pub namespace : Option String
  pub resource_name : Option String
  pub workload_id : Option String

-- The name that `display` adds, behind a slash.
abbrev pub display_name : Option String → String
display_name none = ""
display_name (some n) = if n == "" then "" else concat ("/" ∷ n ∷ [])

unfoldable pub display : KubeEvent → String
display e = concat (
    e.verb
    ∷ " "
    ∷ or_else e.api_group "core"
    ∷ "/"
    ∷ e.resource
    ∷ display_name e.resource_name
    ∷ [])

-- The equality that the dataclass generates: field by field.
abbrev pub event_beq : KubeEvent → KubeEvent → Bool
event_beq a b =
    a.api_group == b.api_group
    && a.resource == b.resource
    && a.verb == b.verb
    && a.namespace == b.namespace
    && a.resource_name == b.resource_name
    && a.workload_id == b.workload_id

event_beq_refl : (a : KubeEvent) → event_beq a a ≡ true
event_beq_refl a = simp (
  ==_refl a.api_group,
  ==_refl a.resource,
  ==_refl a.verb,
  ==_refl a.namespace,
  ==_refl a.resource_name,
  ==_refl a.workload_id,
)

event_beq_sound : (a b : KubeEvent) → event_beq a b ≡ true → a ≡ b
event_beq_sound a b h = ground (
  arith,
  (==_iff a.api_group b.api_group).0,
  (==_iff a.resource b.resource).0,
  (==_iff a.verb b.verb).0,
  (==_iff a.namespace b.namespace).0,
  (==_iff a.resource_name b.resource_name).0,
  (==_iff a.workload_id b.workload_id).0,
)

pub event_beq_iff : (a b : KubeEvent) → (event_beq a b ≡ true) ↔ (a ≡ b)
event_beq_iff a b =
    (event_beq_sound a b, λ e. subst (λ c. event_beq a c ≡ true) e (event_beq_refl a))

instance abbrev pub event_eq : Eq KubeEvent
event_eq = record { same = event_beq; same_iff = event_beq_iff }
