-- ===== src/Event/Bus/Reach/Carrying.antt =====
-- Each step of the bus of event_layer/bus.py keeps what the messages carry.
use kuber.Base.{
  suc, Bool-cases, Option-cases, String, ◌≡◌, subst, inl, inr, false, Option, none, some, List, ◌∷◌,
  ◌++◌, ◌==◌, string_eq, pair_eq,
}
use kuber.Base.Dict.{get}
use kuber.Base.Result.{ok, ok-injective, raise≢ok, Result-cases}
use kuber.Event.Contracts.{EventEnvelope, next_attempt, validated}
use kuber.Event.Topic
use kuber.Event.Bus.{
  PublishedEvent, ConsumedEvent, ack_key_eq, Bus, subscribed, take_pending, claimed_message,
  publish, subscribe, claim, claim_from, consume, placed,
}
use kuber.Event.Bus.Settle.{acknowledge, retry, dead_letter, Supply, dead_letter_event}
use kuber.Event.Bus.Delivery.Steps.{with_queue, held}
use kuber.Event.Bus.Delivery.Logs.{IsLogged}
use kuber.Event.Bus.Delivery.Carried.{
  IsCarried, publish-IsCarried, subscribe-IsCarried, subscribed-get,
}
use kuber.Event.Bus.Delivery.Claims.{claim-IsCarried, settle-IsCarried, retry-IsCarried}
use kuber.Event.Bus.Reach.Steps.{
  State, Step, publishes, issues, consumes, acknowledges, retries, dead_letters,
}

-- The messages of a state carry the work of the events that they are for.
abbrev pub HoldsWork : State → Type 0
HoldsWork (bus, claimed) = IsCarried bus.logs bus.queues claimed

publish-HoldsWork :
    (topic : String) (event : EventEnvelope) (key : String) (bus : Bus)
    (claimed : List ConsumedEvent)
    → HoldsWork (bus, claimed)
    → HoldsWork ((publish topic event key bus).1, claimed)
unfolding publish
publish-HoldsWork topic event key bus claimed c = elim (Bool-cases (key == "")) [
  | inl empty ↦ rw empty c
  | inr given ↦ elim (Bool-cases bus.closed) [
    | inl closed ↦ rw (given, closed) c
    | inr open_bus ↦
        let p = placed (record bus { closed = false }) topic event key in
        rw (given, open_bus) (publish-IsCarried p bus claimed c)
  ]
]

claim-HoldsWork :
    (topic group id : String) (bus : Bus) (claimed queue : List ConsumedEvent)
    (message : Option ConsumedEvent)
    → get (topic, group) bus.queues ≡ some queue
    → (claim topic group id bus).0 ≡ ok message
    → IsLogged bus.logs
    → HoldsWork (bus, claimed)
    → HoldsWork ((claim topic group id bus).1, held message claimed)
unfolding claim claim_from
claim-HoldsWork topic group id bus claimed queue message found returns logged c =
    let is : claimed_message group id (take_pending bus.acknowledged group queue).0 ≡ message =
      ok-injective (rw found at returns) in
    rw found (
      subst
        (λ o. HoldsWork (
          with_queue topic group (take_pending bus.acknowledged group queue).1 bus,
          held o claimed,
        ))
        is (claim-IsCarried topic group id bus claimed queue logged.filed found c))

pub subscribed-IsLogged :
    (topic group : String) (o : Option (List ConsumedEvent)) (bus : Bus)
    → IsLogged bus.logs
    → IsLogged (subscribed topic group o bus).logs
subscribed-IsLogged topic group none bus logged = logged
subscribed-IsLogged topic group (some queue) bus logged = logged

consume-HoldsWork :
    (topic group id : String) (message : Option ConsumedEvent) (bus : Bus)
    (claimed : List ConsumedEvent)
    → (consume topic group id bus).0 ≡ ok message
    → IsLogged bus.logs
    → HoldsWork (bus, claimed)
    → HoldsWork ((consume topic group id bus).1, held message claimed)
unfolding consume subscribe
consume-HoldsWork topic group id message bus claimed returns logged c =
    elim (Bool-cases (group == "")) [
      | inl no_group ↦ absurd (raise≢ok (rw no_group at returns))
      | inr some_group ↦ elim (Bool-cases (id == "")) [
        | inl no_id ↦ absurd (raise≢ok (rw (some_group, no_id) at returns))
        | inr some_id ↦ elim (Bool-cases bus.closed) [
          | inl closed ↦ absurd (raise≢ok (rw (some_group, some_id, closed) at returns))
          | inr open_bus ↦
              let b : Bus = record bus { closed = false } in
              let ready = subscribed topic group (get (topic, group) b.queues) b in
              let (queue, found) = subscribed-get topic group b in
              let returns' : (claim topic group id ready).0 ≡ ok message =
                rw (some_group, some_id, open_bus) at returns in
              rw (some_group, some_id, open_bus)
                (claim-HoldsWork topic group id ready claimed queue message found returns'
                  (subscribed-IsLogged topic group (get (topic, group) b.queues) b logged)
                  (subscribe-IsCarried topic group (get (topic, group) b.queues) b claimed c))
        ]
      ]
    ]

acknowledge-HoldsWork :
    (message : ConsumedEvent) (bus : Bus) (before after : List ConsumedEvent)
    → HoldsWork (bus, before ++ message ∷ after)
    → HoldsWork ((acknowledge message bus).1, before ++ after)
unfolding acknowledge
acknowledge-HoldsWork message bus before after c =
    settle-IsCarried bus.logs bus.queues before after message c

retry-HoldsWork :
    (supply : Supply) (message : ConsumedEvent) (reason : String) (bus : Bus)
    (before after : List ConsumedEvent)
    → (retry supply message reason bus).0 ≡ ok tt
    → HoldsWork (bus, before ++ message ∷ after)
    → HoldsWork ((retry supply message reason bus).1, before ++ after)
unfolding retry
retry-HoldsWork supply message reason bus before after returns c =
    let id = supply.uuid bus.issued in
    let time = supply.clock bus.issued in
    elim (Bool-cases (reason == "")) [
      | inl no_reason ↦ absurd (raise≢ok (rw no_reason at returns))
      | inr given ↦ elim (Option-cases (get (message.topic, message.consumer_group) bus.queues)) [
        | inl absent ↦ absurd (raise≢ok (rw (given, absent) at returns))
        | inr (queue, found) ↦ elim (Result-cases (next_attempt id time none message.event)) [
          | inr (x, is) ↦ absurd (raise≢ok (rw (given, found, is) at returns))
          | inl (event, is) ↦
              rw (given, found, is)
                (retry-IsCarried id time bus.logs bus.queues before after queue message event found
                  is c)
        ]
      ]
    ]

dead_letter-HoldsWork :
    (supply : Supply) (message : ConsumedEvent) (reason : String) (published : PublishedEvent)
    (bus : Bus) (before after : List ConsumedEvent)
    → (dead_letter supply message reason bus).0 ≡ ok published
    → HoldsWork (bus, before ++ message ∷ after)
    → HoldsWork ((dead_letter supply message reason bus).1, before ++ after)
unfolding dead_letter
dead_letter-HoldsWork supply message reason published bus before after returns c =
    let letter =
      dead_letter_event supply (supply.uuid bus.issued) (supply.clock bus.issued) message reason in
    let next : Bus = record bus { issued = suc bus.issued } in
    elim (Result-cases (validated letter)) [
      | inr (x, is) ↦ absurd (raise≢ok (rw is at returns))
      | inl (event, is) ↦ elim (Result-cases (publish Topic.dlq event message.key next).0) [
        | inr (x, refused) ↦ absurd (raise≢ok (rw (is, refused) at returns))
        | inl (p, sent) ↦
            rw (is, sent)
              (acknowledge-HoldsWork message (publish Topic.dlq event message.key next).1 before
                after
                (publish-HoldsWork Topic.dlq event message.key next (before ++ message ∷ after) c))
      ]
    ]

pub Step-HoldsWork :
    (supply : Supply) {s t : State}
    → Step supply s t
    → IsLogged s.0.logs
    → HoldsWork s
    → HoldsWork t
Step-HoldsWork supply (publishes topic event key bus claimed) logged c =
    publish-HoldsWork topic event key bus claimed c
Step-HoldsWork supply (issues bus claimed) logged c = c
Step-HoldsWork supply (consumes topic group id message bus claimed returns) logged c =
    consume-HoldsWork topic group id message bus claimed returns logged c
Step-HoldsWork supply (acknowledges message bus before after) logged c =
    acknowledge-HoldsWork message bus before after c
Step-HoldsWork supply (retries message reason bus before after returns) logged c =
    retry-HoldsWork supply message reason bus before after returns c
Step-HoldsWork supply (dead_letters message reason published bus before after returns) logged c =
    dead_letter-HoldsWork supply message reason published bus before after returns c
