-- ===== src/Agent/System.antt =====
-- agent_layer/graphs/system.py: the nodes that coordinate a namespace over the bus, and their route.
pub mod Completion
pub mod Waiting
pub mod Verdict
pub mod Report
pub mod Graph
pub mod Run
use kuber.Base.{
  ℕ, ltb, leb, String, Bool, true, false, not, ◌&&◌, Option, none, some, List, [], ◌∷◌, ◌++◌, ◌==◌,
  string_eq, nat_eq, map, if◌then◌else◌,
}
use kuber.Base.Lists.{length, all, find}
use kuber.Base.Text.{concat}
use kuber.Base.Result.{Result, ok, raise, key_error, timeout_error, stop_iteration}
use kuber.Agent.Exec.{Exec, pure, lift, item, ◌>>=◌, ◌>>◌}
use kuber.Event.Contracts.{
  EventType, workload_optimization_requested, system_verification_requested,
  system_verification_completed, EventEnvelope, Value, null, flag, number, text, object, Fields,
  field, no_fields, get_field, validated,
}
use kuber.Event.Topic
use kuber.Event.Bus.{Bus, ConsumedEvent, PublishedEvent, publish, consume, claim}
use kuber.Event.Bus.Settle.{Supply, fresh}
use kuber.Context.Models.{ServiceContext, IndexedServiceContext}

-- `SystemGraphState`, less the report's path: a field that no node has written is `none`.
pub record SystemGraphState : Type 0 where
  pub run_id : String
  pub namespace : String
  pub services : Option (List ServiceContext)
  pub contexts : Option (List IndexedServiceContext)
  pub result_events : Option (List EventEnvelope)
  pub expected_results : Option ℕ
  pub system_passed : Option Bool
  pub graph_node : String

-- The bus, and the actions that were recorded.
pub record SystemWorld : Type 0 where
  pub bus : Bus
  pub actions : List String

-- What the graph is made of. The verifier is its answer, where there is one; `others` is what
-- happens on the bus between one read of the results and the next, up to the time limit.
pub record SystemConfig : Type 0 where
  pub cluster : String
  pub supply : Supply
  pub system_verifier : Option (Result Bool)
  pub others : List (Bus → Bus)

-- `bool(value)`
abbrev pub is_true : Option Value → Bool
is_true none = false
is_true (some null) = false
is_true (some (flag b)) = b
is_true (some (number n)) = not (n == 0)
is_true (some (text s)) = not (s == "")
is_true (some (object no_fields)) = false
is_true (some (object (field name value rest))) = true

abbrev pub is_accepted : EventEnvelope → Bool
is_accepted event = is_true (get_field "accepted" event.payload)

abbrev pub on_bus : {A : Type 0} → Exec Bus A → Exec SystemWorld A
on_bus m w = let (r, bus) = m w.bus in (r, record w { bus = bus })

abbrev pub record_action : String → Exec SystemWorld (Unit {0})
record_action action w = (ok tt, record w { actions = w.actions ++ action ∷ [] })

-- `by_service[service_id]`: of two contexts of one service, the last one.
abbrev pub later_or : IndexedServiceContext → Option IndexedServiceContext → IndexedServiceContext
later_or context none = context
later_or context (some later) = later

unfoldable pub by_service : String → List IndexedServiceContext → Option IndexedServiceContext
by_service id [] = none
by_service id (context ∷ rest) =
    let later = by_service id rest in
    if context.service_id == id then some (later_or context later) else later

module _ (config : SystemConfig) where
  -- `EventEnvelope(…)`, with the defaults of the other fields.
  unfoldable pub envelope :
      EventType → String → Option String → Fields → Exec SystemWorld EventEnvelope
  unfolding validated
  envelope event_type run_id causation_id payload = do
    (event_id, timestamp) ← on_bus (fresh config.supply)
    lift (
        validated (record {
          event_type = event_type;
          run_id = run_id;
          correlation_id = run_id;
          payload = payload;
          event_id = event_id;
          timestamp = timestamp;
          causation_id = causation_id;
          attempt = 0;
          schema_version = "1";
        }))

  -- The payload of a task.
  abbrev pub task_payload : String → ServiceContext → IndexedServiceContext → Fields
  task_payload run_id service context =
      field "task_id" (text (concat (run_id ∷ ":" ∷ service.service_id ∷ []))) (
        field "workload_id" (text service.service_id) (
          field "namespace" (text service.namespace) (
            field "deployment" (text service.deployment_name) (
              field "service_account" (text service.service_account) (
                field "repository_ref" (text (concat ("service://" ∷ service.service_id ∷ []))) (
                  field "context_ref" (text context.context_ref) (
                    field "verification_profile" (text service.verification_profile)
                      no_fields)))))))

  -- The body of the loop of `dispatch`.
  unfoldable pub dispatch_service :
      String → List IndexedServiceContext → ServiceContext → Exec SystemWorld (Unit {0})
  unfolding envelope by_service
  dispatch_service run_id contexts service = do
    context ← lift (item service.service_id (by_service service.service_id contexts))
    event ←
        envelope workload_optimization_requested run_id none (task_payload run_id service context)
    on_bus (
        publish Topic.optimization_requests event
          (concat (config.cluster ∷ ":" ∷ service.namespace ∷ ":" ∷ service.service_id ∷ [])))
    pure tt

  unfoldable pub dispatch_services :
      String → List IndexedServiceContext → List ServiceContext → Exec SystemWorld (Unit {0})
  unfolding dispatch_service
  dispatch_services run_id contexts [] = pure tt
  dispatch_services run_id contexts (service ∷ rest) = do
    dispatch_service run_id contexts service
    dispatch_services run_id contexts rest

  -- `dispatch`
  unfoldable pub dispatch : SystemGraphState → Exec SystemWorld SystemGraphState
  unfolding dispatch_services
  dispatch state = do
    contexts ← lift (item "contexts" state.contexts)
    services ← lift (item "services" state.services)
    dispatch_services state.run_id contexts services
    record_action "dispatch_workload_events"
    pure (record state {
      expected_results = some (length services);
      graph_node = "DISPATCH_WORKLOAD_EVENTS";
    })
