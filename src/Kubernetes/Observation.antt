-- ===== src/Kubernetes/Observation.antt =====
-- kubernetes_runtime/observation/event_collector.py, with KubeEvent.from_dict of
-- rules_engine/models/event.py. What `json.loads` makes of a text is a parameter.
use kuber.Base.{
  String, Bool, true, false, not, ◌&&◌, Option, none, some, List, [], ◌∷◌, ◌++◌, if◌then◌else◌,
}
use kuber.Base.Dict.Unique.{unique}
use kuber.Base.Result.{Result, ok, raise, type_error, ◌>>=◌}
use kuber.Models.Event.{KubeEvent, event_eq}
use kuber.Agent.Exec.{item}
use kuber.Event.Contracts.{Value, null, flag, number, text, object, Fields, get_field}
use kuber.Event.Worker.{str}
use kuber.Texts.{splitlines, from_brace}

-- An entry that is a text or None. The annotation says no more, and a value of another type is
-- refused here, as the code refuses those that have no hash.
abbrev pub optional_entry : Option Value → Result (Option String)
optional_entry none = ok none
optional_entry (some null) = ok none
optional_entry (some (text s)) = ok (some s)
optional_entry (some (flag b)) = raise (type_error "not a text")
optional_entry (some (number n)) = raise (type_error "not a text")
optional_entry (some (object members)) = raise (type_error "not a text")

abbrev text_or : (Fields → String) → String → Option Value → String
text_or repr default none = default
text_or repr default (some value) = str repr value

-- `KubeEvent.from_dict`
unfoldable pub from_dict : (Fields → String) → Fields → Result KubeEvent
from_dict repr fields = do
  resource ← item "resource" (get_field "resource" fields)
  verb ← item "verb" (get_field "verb" fields)
  namespace ← optional_entry (get_field "namespace" fields)
  resource_name ← optional_entry (get_field "resource_name" fields)
  workload_id ← optional_entry (get_field "workload_id" fields)
  ok (record {
    api_group = text_or repr "" (get_field "api_group" fields);
    resource = str repr resource;
    verb = str repr verb;
    namespace = namespace;
    resource_name = resource_name;
    workload_id = workload_id;
  })

-- `value is True`
abbrev pub is_flag_true : Option Value → Bool
is_flag_true (some (flag true)) = true
is_flag_true (some (flag false)) = false
is_flag_true none = false
is_flag_true (some null) = false
is_flag_true (some (number n)) = false
is_flag_true (some (text s)) = false
is_flag_true (some (object members)) = false

abbrev pub kept : Result KubeEvent → List KubeEvent
kept (ok event) = event ∷ []
kept (raise e) = []

-- The tests of the loop's body, on what `json.loads` returned; `none` is an exception.
unfoldable pub event_of : (Fields → String) → Bool → Option Value → List KubeEvent
unfolding from_dict
event_of repr denied_only (some (object members)) =
    if not (is_flag_true (get_field "kuber_event" members))
    then []
    else if denied_only && not (is_flag_true (get_field "kuber_denied" members))
    then []
    else kept (from_dict repr members)
event_of repr denied_only none = []
event_of repr denied_only (some null) = []
event_of repr denied_only (some (flag b)) = []
event_of repr denied_only (some (number n)) = []
event_of repr denied_only (some (text s)) = []

-- The loop over the lines.
unfoldable pub line_events :
    (String → Option Value) → (Fields → String) → Bool → List String → List KubeEvent
unfolding event_of from_brace
line_events loads repr denied_only [] = []
line_events loads repr denied_only (line ∷ lines) =
    event_of repr denied_only (loads (from_brace line)) ++ line_events loads repr denied_only lines

-- `collect_events`: an event that comes again changes nothing.
unfoldable pub collect_events :
    (String → Option Value) → (Fields → String) → Bool → String → List KubeEvent
unfolding line_events splitlines unique
collect_events loads repr denied_only logs =
    unique (λ event. event) (line_events loads repr denied_only (splitlines logs))
