-- ===== src/Event/Bus.antt =====
-- event_layer/bus.py: the in-memory bus. The callback, which only reports, is left out.
pub mod Settle
pub mod Delivery
pub mod Reach
use Prim.Native.String
use Prim.Native.Char.{code}
use kuber.Base.{
  ℕ, suc, ◌+◌, ◌*◌, ◌/◌, ◌%◌, ltb, String, Bool, true, false, not, Option, none, some, List, [],
  ◌∷◌, ◌++◌, map, ◌==◌, string_eq, nat_eq, pair_eq, Eq, ==_iff, ==_refl, ◌≡◌, ◌↔◌, subst, ◌&&◌,
  arith, contains, if◌then◌else◌,
}
use kuber.Base.Lists.{length, filter, sum_of}
use kuber.Base.Dict.{Dict, get, put}
use kuber.Base.Result.{Result, ok, raise, value_error, key_error, runtime_error}
use kuber.Agent.Exec.{Exec, pure, lift, ◌>>=◌, ◌>>◌}
use kuber.Event.Contracts.{
  EventEnvelope, dead_lettered, validated, next_attempt, to_dict, field, no_fields, text, object,
}
use kuber.Event.Topic

pub record PublishedEvent : Type 0 where
  pub topic : String
  pub key : String
  pub partition : ℕ
  pub offset : ℕ
  pub event : EventEnvelope

pub record ConsumedEvent : Type 0 where
  pub topic : String
  pub key : String
  pub partition : ℕ
  pub offset : ℕ
  pub event : EventEnvelope
  pub consumer_group : String
  pub consumer_id : String
  pub delivery_count : ℕ

-- The tuple that `_ack_key` makes.
pub record AckKey : Type 0 where
  pub topic : String
  pub group : String
  pub partition : ℕ
  pub offset : ℕ

abbrev pub ack_key_beq : AckKey → AckKey → Bool
ack_key_beq a b =
    a.topic == b.topic && a.group == b.group && a.partition == b.partition && a.offset == b.offset

pub ack_key_beq_iff : (a b : AckKey) → (ack_key_beq a b ≡ true) ↔ (a ≡ b)
ack_key_beq_iff a b = (
  λ h. ground (
    arith,
    (==_iff a.topic b.topic).0,
    (==_iff a.group b.group).0,
    (==_iff a.partition b.partition).0,
    (==_iff a.offset b.offset).0,
  ),
  λ e.
      subst (λ c. ack_key_beq a c ≡ true) e
        (simp (==_refl a.topic, ==_refl a.group, ==_refl a.partition, ==_refl a.offset)),
)

instance abbrev pub ack_key_eq : Eq AckKey
ack_key_eq = record { same = ack_key_beq; same_iff = ack_key_beq_iff }

-- The bus, and how many identities `uuid4` has given.
pub record Bus : Type 0 where
  pub partitions : ℕ
  pub logs : Dict String (List PublishedEvent)
  pub queues : Dict (String × String) (List ConsumedEvent)
  pub acknowledged : List AckKey
  pub closed : Bool
  pub issued : ℕ

-- `__init__`
abbrev pub make_bus : ℕ → Result Bus
make_bus partitions =
    if ltb partitions 1
    then raise (value_error "partitions must be positive")
    else ok (record {
      partitions = partitions;
      logs = [];
      queues = [];
      acknowledged = [];
      closed = false;
      issued = 0;
    })

-- The bytes of `key.encode()`, which is UTF-8.
abbrev pub utf8 : ℕ → List ℕ
utf8 c =
    if ltb c 128
    then c ∷ []
    else if ltb c 2048
    then (192 + c / 64) ∷ (128 + c % 64) ∷ []
    else if ltb c 65536
    then (224 + c / 4096) ∷ (128 + c / 64 % 64) ∷ (128 + c % 64) ∷ []
    else (240 + c / 262144) ∷ (128 + c / 4096 % 64) ∷ (128 + c / 64 % 64) ∷ (128 + c % 64) ∷ []

unfoldable pub encode : String → List ℕ
encode String.[] = []
encode (String.◌∷◌ c s) = utf8 (code c) ++ encode s

unfoldable pub partition_for : Bus → String → ℕ
unfolding encode
partition_for bus key = sum_of (λ byte. byte) (encode key) % bus.partitions

-- `self._logs[topic]`, of a `defaultdict`.
abbrev pub log_or_empty : Option (List PublishedEvent) → List PublishedEvent
log_or_empty none = []
log_or_empty (some log) = log

abbrev pub log_of : Bus → String → List PublishedEvent
log_of bus topic = log_or_empty (get topic bus.logs)

abbrev pub consumed : PublishedEvent → String → String → ConsumedEvent
consumed event consumer_group consumer_id = record {
  topic = event.topic;
  key = event.key;
  partition = event.partition;
  offset = event.offset;
  event = event.event;
  consumer_group = consumer_group;
  consumer_id = consumer_id;
  delivery_count = 1;
}

abbrev pub ack_key : ConsumedEvent → String → AckKey
ack_key message group = record {
  topic = message.topic;
  group = group;
  partition = message.partition;
  offset = message.offset;
}

-- `_ensure_open`
abbrev pub ensure_open : Exec Bus (Unit {0})
ensure_open bus =
    if bus.closed then (raise (runtime_error "event bus is closed"), bus) else (ok tt, bus)

-- The loop of `publish` over the queues.
unfoldable pub put_on_queues :
    String
    → ConsumedEvent
    → Dict (String × String) (List ConsumedEvent)
    → Dict (String × String) (List ConsumedEvent)
put_on_queues topic message [] = []
put_on_queues topic message (((queued_topic, group), queue) ∷ rest) =
    ((queued_topic, group), if queued_topic == topic then queue ++ message ∷ [] else queue)
    ∷ put_on_queues topic message rest

-- The event that `publish` makes, in its place.
unfoldable pub placed : Bus → String → EventEnvelope → String → PublishedEvent
unfolding partition_for
placed bus topic event key =
    let partition = partition_for bus key in
    record {
      topic = topic;
      key = key;
      partition = partition;
      offset = length (filter (λ item. item.partition == partition) (log_of bus topic));
      event = event;
    }

abbrev pub append_event : PublishedEvent → Bus → Bus
append_event published bus = record bus {
  logs = put published.topic (log_of bus published.topic ++ published ∷ []) bus.logs;
  queues = put_on_queues published.topic (consumed published "" "") bus.queues;
}

unfoldable pub publish : String → EventEnvelope → String → Exec Bus PublishedEvent
unfolding placed put_on_queues
publish topic event key =
    if key == "" then lift (raise (value_error "event key must not be empty")) else (do
      ensure_open
      λ bus. (ok (placed bus topic event key), append_event (placed bus topic event key) bus))

-- `_subscribe`
abbrev pub subscribed : String → String → Option (List ConsumedEvent) → Bus → Bus
subscribed topic group none bus = record bus {
  queues = put (topic, group) (map (λ item. consumed item group "") (log_of bus topic)) bus.queues;
}
subscribed topic group (some queue) bus = bus

unfoldable pub subscribe : String → String → Exec Bus (Unit {0})
subscribe topic group = do
  ensure_open
  λ bus. (ok tt, subscribed topic group (get (topic, group) bus.queues) bus)

-- The loop of `_consume` up to its `yield`: the message and the rest of the queue, or nothing where
-- the consumer waits.
unfoldable pub take_pending :
    List AckKey → String → List ConsumedEvent → Option ConsumedEvent × List ConsumedEvent
take_pending acknowledged group [] = (none, [])
take_pending acknowledged group (message ∷ rest) =
    let later = take_pending acknowledged group rest in
    if contains acknowledged (ack_key message group) then later else (some message, rest)

abbrev pub claimed_by : String → String → ConsumedEvent → ConsumedEvent
claimed_by group id message = record message { consumer_group = group; consumer_id = id }

abbrev pub claimed_message : String → String → Option ConsumedEvent → Option ConsumedEvent
claimed_message group id none = none
claimed_message group id (some message) = some (claimed_by group id message)

-- A group that has no queue cannot claim; `_consume` subscribes first.
unfoldable pub claim_from :
    String → String → String → Option (List ConsumedEvent) → Exec Bus (Option ConsumedEvent)
unfolding take_pending
claim_from topic group id none bus = (ok none, bus)
claim_from topic group id (some queue) bus =
    let (message, rest) = take_pending bus.acknowledged group queue in
    (
      ok (claimed_message group id message),
      record bus { queues = put (topic, group) rest bus.queues },
    )

unfoldable pub claim : String → String → String → Exec Bus (Option ConsumedEvent)
unfolding claim_from
claim topic group id bus = claim_from topic group id (get (topic, group) bus.queues) bus

-- The first step of `consume`: the names are checked, the group subscribes, a message is claimed.
-- A closed bus ends the iteration, as does nothing to claim.
unfoldable pub consume : String → String → String → Exec Bus (Option ConsumedEvent)
unfolding subscribe claim
consume topic group id =
    if group == ""
    then lift (raise (value_error "consumer_group and consumer_id must not be empty"))
    else if id == ""
    then lift (raise (value_error "consumer_group and consumer_id must not be empty"))
    else (do subscribe topic group; claim topic group id)
