-- ===== src/Event/Bus/Settle.antt =====
-- How a message of the bus is settled: `acknowledge`, `retry` and `dead_letter`.
use kuber.Base.{
  ℕ, suc, ◌+◌, String, true, Option, none, some, List, [], ◌∷◌, ◌++◌, ◌==◌, string_eq, pair_eq,
  contains, if◌then◌else◌,
}
use kuber.Base.Dict.{get, put}
use kuber.Base.Result.{Result, ok, raise, value_error, key_error}
use kuber.Agent.Exec.{Exec, pure, lift, ◌>>=◌, ◌>>◌}
use kuber.Event.Contracts.{
  EventEnvelope, dead_lettered, validated, next_attempt, to_dict, field, no_fields, text, object,
}
use kuber.Event.Topic
use kuber.Event.Bus.{
  PublishedEvent, ConsumedEvent, AckKey, ack_key_eq, Bus, ack_key, log_of, publish,
}

-- A set: an element that is in it is not added again.
abbrev pub add_to_set : AckKey → List AckKey → List AckKey
add_to_set key set = if contains set key then set else key ∷ set

unfoldable pub acknowledge : ConsumedEvent → Exec Bus (Unit {0})
acknowledge message bus = (
  ok tt,
  record bus {
    acknowledged = add_to_set (ack_key message message.consumer_group) bus.acknowledged;
  },
)

-- Where `uuid4` and the clock give identities and times.
pub record Supply : Type 0 where
  pub uuid : ℕ → String
  pub clock : ℕ → String

-- A new identity and time.
abbrev pub fresh : Supply → Exec Bus (String × String)
fresh supply bus =
    (ok (supply.uuid bus.issued, supply.clock bus.issued), record bus { issued = suc bus.issued })

-- `self._queues[(topic, group)]`
abbrev pub queue_item : String → Option (List ConsumedEvent) → Result (List ConsumedEvent)
queue_item topic none = raise (key_error topic)
queue_item topic (some queue) = ok queue

abbrev pub redelivered : ConsumedEvent → EventEnvelope → ConsumedEvent
redelivered message event = record message {
  event = event;
  delivery_count = message.delivery_count + 1;
}

module _ (supply : Supply) where
  unfoldable pub retry : ConsumedEvent → String → Exec Bus (Unit {0})
  unfolding next_attempt
  retry message reason =
      if reason == "" then lift (raise (value_error "retry reason must not be empty")) else (do
        queue ← λ bus.
            (queue_item message.topic (get (message.topic, message.consumer_group) bus.queues), bus)
        (event_id, timestamp) ← fresh supply
        event ← lift (next_attempt event_id timestamp none message.event)
        λ bus. (
          ok tt,
          record bus {
            queues =
                put (message.topic, message.consumer_group)
                  (queue ++ redelivered message event ∷ []) bus.queues;
          },
        ))

  abbrev pub dead_letter_event : String → String → ConsumedEvent → String → EventEnvelope
  dead_letter_event event_id timestamp message reason = record {
    event_type = dead_lettered;
    run_id = message.event.run_id;
    correlation_id = message.event.correlation_id;
    payload = field "source_topic" (text message.topic) (
        field "source_event" (object (to_dict message.event))
          (field "reason" (text reason) no_fields));
    event_id = event_id;
    timestamp = timestamp;
    causation_id = some message.event.event_id;
    attempt = message.event.attempt;
    schema_version = "1";
  }

  unfoldable pub dead_letter : ConsumedEvent → String → Exec Bus PublishedEvent
  unfolding acknowledge validated
  dead_letter message reason = do
    (event_id, timestamp) ← fresh supply
    event ← lift (validated (dead_letter_event event_id timestamp message reason))
    published ← publish Topic.dlq event message.key
    acknowledge message
    pure published

-- `close`
abbrev close : Exec Bus (Unit {0})
close bus = (ok tt, record bus { closed = true })

-- `topic_events`
abbrev topic_events : Bus → String → List PublishedEvent
topic_events = log_of
