-- ===== src/Tests/Events.antt =====
-- The event layer on sample messages.
use kuber.Base.{
  ◌↔◌, if◌then◌else◌, subst, ◌==◌, string_eq, String, ◌≡◌, refl, none, some, [], ◌∷◌, false,
}
use kuber.Base.Dict.{get, put}
use kuber.Base.Result.{Error, ok, raise, ok-injective, raise-injective, value_error}
use kuber.Event.Contracts.{
  EventType, analysis_requested, workload_optimization_requested, EventEnvelope, Fields, field,
  no_fields, text, get_field, validated,
}
use kuber.Event.Topic
use kuber.Event.Bus.{
  Bus, ConsumedEvent, publish, consume, subscribe, claim, claim_from, take_pending, placed,
  put_on_queues, ack_key_eq,
}
use kuber.Event.Bus.Settle.{Supply, dead_letter, acknowledge}
use kuber.Event.Bus.Reach.Steps.{Reaches, here, then_step, publishes, consumes, acknowledges}
use kuber.Event.Bus.Reach.{Delivers, reached-Delivers}
use kuber.Event.Locks.{MakesKey, has_colon, workload_lock_key, workload_lock_key-injective}
use kuber.Context.Models.{IndexedServiceContext}
use kuber.Event.Worker.{Task, error_name, WorkerConfig, WorkerWorld}
use kuber.Event.Worker.Process.{attempt, validate, reject, dispatch, process}
use kuber.Event.Worker.Returns.Settling.{IsSound, IsReady}
use kuber.Event.Worker.Returns.{HasKey, IsNamed, IsNewTask, process-returns, process-returns_iff}
use kuber.Event.Worker.Settles.{process-settles}
use kuber.Judge.Simulator.{SimulatorEnvironment, simulate, simulator}
use kuber.Samples.{case, explain}

abbrev supply : Supply
supply = record { uuid = λ n. "id"; clock = λ n. "now" }

abbrev envelope : EventType → Fields → EventEnvelope
envelope kind payload = record {
  event_type = kind;
  run_id = "run-1";
  correlation_id = "run-1";
  payload = payload;
  event_id = "event-1";
  timestamp = "now";
  causation_id = none;
  attempt = 0;
  schema_version = "1";
}

abbrev new_bus : Bus
new_bus = record {
  partitions = 3;
  logs = [];
  queues = [];
  acknowledged = [];
  closed = false;
  issued = 0;
}

workload_lock_key-injective_example :
    (◌≡◌ {A = String} "kind" "kind")
    × (◌≡◌ {A = String} "shop" "shop")
    × (◌≡◌ {A = String} "worker" "worker")
unfolding workload_lock_key has_colon
workload_lock_key-injective_example =
    workload_lock_key-injective "kind" "shop" "worker" "kind" "shop" "worker" "kind:shop:worker"
      refl refl

abbrev analysis : EventEnvelope
analysis = envelope analysis_requested no_fields

-- A group subscribes before an event is published, claims it, and acknowledges it; another event
-- follows, and a second group comes to it later.
abbrev subscribed_bus : Bus
subscribed_bus = (consume "topic" "group" "one" new_bus).1

abbrev first_bus : Bus
first_bus = (publish "topic" analysis "key" subscribed_bus).1

abbrev first_claim : ConsumedEvent
first_claim = record {
  topic = "topic";
  key = "key";
  partition = 2;
  offset = 0;
  event = analysis;
  consumer_group = "group";
  consumer_id = "one";
  delivery_count = 1;
}

abbrev claimed_bus : Bus
claimed_bus = (consume "topic" "group" "one" first_bus).1

abbrev settled_bus : Bus
settled_bus = (acknowledge first_claim claimed_bus).1

abbrev second_bus : Bus
second_bus = (publish "topic" analysis "key" settled_bus).1

abbrev late_bus : Bus
late_bus = (consume "topic" "late" "two" second_bus).1

abbrev late_claim : ConsumedEvent
late_claim = record first_claim { consumer_group = "late"; consumer_id = "two" }

late_trace : Reaches supply (new_bus, []) (late_bus, late_claim ∷ [])
unfolding consume publish subscribe claim claim_from take_pending placed put_on_queues acknowledge
    get put
late_trace =
    let subscribes =
      then_step _ (new_bus, []) (subscribed_bus, []) (here _)
        (consumes "topic" "group" "one" none new_bus [] refl) in
    let first =
      then_step _ (subscribed_bus, []) (first_bus, []) subscribes
        (publishes "topic" analysis "key" subscribed_bus []) in
    let claims =
      then_step _ (first_bus, []) (claimed_bus, first_claim ∷ []) first
        (consumes "topic" "group" "one" (some first_claim) first_bus [] refl) in
    let settles =
      then_step _ (claimed_bus, first_claim ∷ []) (settled_bus, []) claims
        (acknowledges first_claim claimed_bus [] []) in
    let second =
      then_step _ (settled_bus, []) (second_bus, []) settles
        (publishes "topic" analysis "key" settled_bus []) in
    then_step _ (second_bus, []) (late_bus, late_claim ∷ []) second
      (consumes "topic" "late" "two" (some late_claim) second_bus [] refl)

reached-Delivers_example : Delivers late_bus (late_claim ∷ []) late_trace
reached-Delivers_example =
    reached-Delivers supply 3 new_bus late_bus (late_claim ∷ []) refl late_trace

abbrev task_fields : Fields
task_fields = field "task_id" (text "run-1:a:b") (
    field "workload_id" (text "a:b")
      (field "namespace" (text "shop") (field "context_ref" (text "colons") no_fields)))

abbrev claimed : EventEnvelope → ConsumedEvent
claimed event = record {
  topic = Topic.optimization_requests;
  key = "kind:shop:worker";
  partition = 0;
  offset = 0;
  event = event;
  consumer_group = Topic.optimization_consumer_group;
  consumer_id = "worker-1";
  delivery_count = 1;
}

abbrev context : IndexedServiceContext
context = record {
  context_ref = "ref";
  service_id = "a:b";
  content_hash = "hash";
  files = [];
  bytes_loaded = 0;
  languages = [];
  kubernetes_usage = [];
  dependencies = [];
  entry_points = [];
}

abbrev worker : WorkerConfig SimulatorEnvironment
worker = record {
  worker_id = "worker-1";
  cluster = "kind";
  max_delivery_attempts = 3;
  graph = record { adapter = simulator; explain = explain; max_repair_iterations = 5 };
  recursion_limit = 36;
  supply = supply;
  find_context = λ ref. some context;
  create = λ event context. ok (simulate case);
  acquire = λ key. ok tt;
  repr = λ fields. "{}";
}

abbrev world : WorkerWorld SimulatorEnvironment
world = record {
  bus = new_bus;
  stats = record { claimed = 0; completed = 0; failed = 0; retried = 0; duplicates = 0 };
  results = [];
  environment = none;
}

process-settles_example :
    Reaches supply
      (new_bus, claimed analysis ∷ [])
      ((process worker (claimed analysis) world).1.bus, [])
unfolding process dispatch validate reject dead_letter validated publish acknowledge
process-settles_example = process-settles worker (claimed analysis) [] [] world refl

-- A worker whose cluster cannot be reached, and its task.
abbrev cut_off : WorkerConfig SimulatorEnvironment
cut_off = record worker {
  find_context =
      λ ref. some (record context { service_id = if ref == "colons" then "a:b" else "worker" });
  create = λ event context. raise (value_error "no cluster");
}

abbrev task_event : EventEnvelope
task_event = envelope workload_optimization_requested (
    field "task_id" (text "run-1:worker") (
      field "workload_id" (text "worker")
        (field "namespace" (text "shop") (field "context_ref" (text "ref") no_fields))))

abbrev task : Task
task = record {
  task_id = "run-1:worker";
  workload_id = "worker";
  namespace = "shop";
  context = record context { service_id = "worker" };
}

abbrev waiting_world : WorkerWorld SimulatorEnvironment
waiting_world = record world {
  bus = record new_bus {
    queues = ((Topic.optimization_requests, Topic.optimization_consumer_group), []) ∷ [];
  };
}

task_IsSound : IsSound cut_off (claimed task_event)
unfolding validated
task_IsSound = record { keyed = refl; valid = refl; named = λ n. refl }

task_IsReady : IsReady (claimed task_event) waiting_world.bus
unfolding get
task_IsReady = record { is_open = refl; queue = []; queued = refl }

task_HasKey : HasKey cut_off (claimed task_event)
unfolding validate get_field workload_lock_key has_colon
task_HasKey v found h =
    subst (λ t. (key : String) × (workload_lock_key "kind" t.namespace t.workload_id ≡ ok key))
      (ok-injective h) ("kind:shop:worker", refl)

task_IsNamed : IsNamed cut_off (claimed task_event)
unfolding attempt
task_IsNamed found key v e h = subst (λ x. (error_name x == "") ≡ false) (raise-injective h) refl

process-returns_example :
    ((process cut_off (claimed task_event) waiting_world).0 ≡ ok tt)
    × Reaches supply
        (waiting_world.bus, claimed task_event ∷ [])
        ((process cut_off (claimed task_event) waiting_world).1.bus, [])
process-returns_example =
    process-returns cut_off (claimed task_event) [] [] waiting_world task_IsSound task_IsReady
      task_HasKey task_IsNamed

-- A task whose workload has a colon in its name.
abbrev colon_event : EventEnvelope
colon_event = envelope workload_optimization_requested task_fields

colon_IsSound : IsSound cut_off (claimed colon_event)
unfolding validated
colon_IsSound = record { keyed = refl; valid = refl; named = λ n. refl }

colon_IsReady : IsReady (claimed colon_event) waiting_world.bus
unfolding get
colon_IsReady = record { is_open = refl; queue = []; queued = refl }

colon_IsNamed : IsNamed cut_off (claimed colon_event)
unfolding attempt
colon_IsNamed found key v e h = subst (λ x. (error_name x == "") ≡ false) (raise-injective h) refl

process-returns_iff_example :
    (((process cut_off (claimed colon_event) waiting_world).0 ≡ ok tt) ↔ (
      (t : Task)
      → IsNewTask cut_off (claimed colon_event) waiting_world t
      → MakesKey "kind" t.namespace t.workload_id))
    × ((e : Error)
        → (process cut_off (claimed colon_event) waiting_world).0 ≡ raise e
        → (process cut_off (claimed colon_event) waiting_world).1.bus ≡ waiting_world.bus)
process-returns_iff_example =
    process-returns_iff cut_off (claimed colon_event) waiting_world colon_IsSound colon_IsReady
      colon_IsNamed
