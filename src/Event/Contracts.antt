-- ===== src/Event/Contracts.antt =====
-- event_layer/contracts.py: the event envelope.
use kuber.Base.{
  ℕ, ◌+◌, String, Bool, not, Option, none, some, [], ◌∷◌, ◌==◌, string_eq, if◌then◌else◌,
}
use kuber.Base.Text.{concat, or_else}
use kuber.Base.Result.{Result, ok, raise, value_error}

pub data EventType : Type 0 where
  analysis_requested workload_optimization_requested workload_optimization_started : EventType
  candidate_policy_generated verification_failed workload_optimization_completed : EventType
  workload_optimization_failed system_verification_requested system_verification_completed :
      EventType
  dependency_context_requested dead_lettered : EventType

-- The value of the enumeration.
abbrev pub type_name : EventType → String
type_name analysis_requested = "AnalysisRequested"
type_name workload_optimization_requested = "WorkloadOptimizationRequested"
type_name workload_optimization_started = "WorkloadOptimizationStarted"
type_name candidate_policy_generated = "CandidatePolicyGenerated"
type_name verification_failed = "VerificationFailed"
type_name workload_optimization_completed = "WorkloadOptimizationCompleted"
type_name workload_optimization_failed = "WorkloadOptimizationFailed"
type_name system_verification_requested = "SystemVerificationRequested"
type_name system_verification_completed = "SystemVerificationCompleted"
type_name dependency_context_requested = "DependencyContextRequested"
type_name dead_lettered = "DeadLettered"

-- A payload is a JSON object; of its numbers the natural ones are kept.
mutual
  pub data Value : Type 0 where
    null : Value
    flag : Bool → Value
    number : ℕ → Value
    text : String → Value
    object : Fields → Value

  pub data Fields : Type 0 where
    no_fields : Fields
    field : String → Value → Fields → Fields

-- `payload.get(name)`
unfoldable pub get_field : String → Fields → Option Value
get_field name no_fields = none
get_field name (field key value rest) = if key == name then some value else get_field name rest

pub record EventEnvelope : Type 0 where
  pub event_type : EventType
  pub run_id : String
  pub correlation_id : String
  pub payload : Fields
  pub event_id : String
  pub timestamp : String
  pub causation_id : Option String
  pub attempt : ℕ
  pub schema_version : String

-- `__post_init__`; an attempt is a natural number, so its test has nothing to refuse.
unfoldable pub validated : EventEnvelope → Result EventEnvelope
validated e =
    if e.event_id == ""
    then raise (value_error "event_id must not be empty")
    else if e.run_id == ""
    then raise (value_error "run_id must not be empty")
    else if e.correlation_id == ""
    then raise (value_error "correlation_id must not be empty")
    else if e.schema_version == ""
    then raise (value_error "schema_version must not be empty")
    else if not (e.schema_version == "1")
    then raise (value_error (concat ("unsupported event schema version: " ∷ e.schema_version ∷ [])))
    else ok e

abbrev pub text_or_null : Option String → Value
text_or_null none = null
text_or_null (some s) = text s

abbrev pub to_dict : EventEnvelope → Fields
to_dict e = field "event_type" (text (type_name e.event_type)) (
    field "run_id" (text e.run_id) (
      field "correlation_id" (text e.correlation_id) (
        field "payload" (object e.payload) (
          field "event_id" (text e.event_id) (
            field "timestamp" (text e.timestamp) (
              field "causation_id" (text_or_null e.causation_id) (
                field "attempt" (number e.attempt)
                  (field "schema_version" (text e.schema_version) no_fields))))))))

-- `causation_id or self.event_id`
abbrev pub cause : Option String → String → String
cause none event_id = event_id
cause (some id) event_id = or_else id event_id

-- `next_attempt`, with the identity and the time that the new envelope gets.
unfoldable pub next_attempt : String → String → Option String → EventEnvelope → Result EventEnvelope
unfolding validated
next_attempt event_id timestamp causation_id e = validated (record {
  event_type = e.event_type;
  run_id = e.run_id;
  correlation_id = e.correlation_id;
  payload = e.payload;
  event_id = event_id;
  timestamp = timestamp;
  causation_id = some (cause causation_id e.event_id);
  attempt = e.attempt + 1;
  schema_version = e.schema_version;
})
