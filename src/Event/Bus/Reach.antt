-- ===== src/Event/Bus/Reach.antt =====
-- At-least-once delivery in every state that the bus of event_layer/bus.py reaches.
pub mod Steps
pub mod Settled
pub mod Carrying
use kuber.Base.{
  suc, ltb, Bool-cases, Option-cases, ℕ, String, ◌≡◌, ap, subst, ◌∙◌, inl, inr, ◌⊎◌, refl, sym,
  nat_eq, false, Option, none, some, List, [], ◌∷◌, ◌++◌, map, Memᴰ, ◌==◌, ==_iff, ==_refl,
  string_eq, pair_eq, if◌then◌else◌,
}
use kuber.Base.Lists.{IsDistinct}
use kuber.Base.Dict.{get, get-put}
use kuber.Event.Bus.{
  PublishedEvent, ConsumedEvent, AckKey, ack_key_eq, Bus, log_of, log_or_empty, consumed,
  append_event, subscribed, take_pending, claimed_message, publish, subscribe, claim, claim_from,
  consume, placed, make_bus,
}
use kuber.Event.Bus.Settle.{acknowledge, retry, dead_letter, Supply, dead_letter_event}
use kuber.Base.Result.{ok, ok-injective, raise≢ok, Result-cases}
use kuber.Event.Contracts.{EventEnvelope, next_attempt, validated}
use kuber.Event.Topic
use kuber.Event.Bus.Delivery.Logs.{IsLogged, append_event-IsLogged}
use kuber.Event.Bus.Delivery.Carried.{IsCarried, subscribed-get}
use kuber.Event.Bus.Reach.Carrying.{HoldsWork, Step-HoldsWork, subscribed-IsLogged}
use kuber.Event.Bus.Reach.Settled.{IsSettled, Reaches-IsSettled}
use kuber.Event.Bus.Delivery.{item_key, AtLeastOnce, publish-AtLeastOnce, subscribe-AtLeastOnce}
use kuber.Event.Bus.Delivery.Steps.{
  with_queue, held, claim-AtLeastOnce, acknowledge-AtLeastOnce, retry-AtLeastOnce,
}
use kuber.Event.Bus.Reach.Steps.{
  State, Step, publishes, issues, consumes, acknowledges, retries, dead_letters, Reaches, here,
  then_step,
}

abbrev Invariant : State → Type 0
Invariant (bus, claimed) = AtLeastOnce bus claimed × IsLogged bus.logs

publish-Invariant :
    (topic : String) (event : EventEnvelope) (key : String) (bus : Bus)
    (claimed : List ConsumedEvent)
    → Invariant (bus, claimed)
    → Invariant ((publish topic event key bus).1, claimed)
unfolding publish placed
publish-Invariant topic event key bus claimed (kept, logged) = elim (Bool-cases (key == "")) [
  | inl empty ↦ rw empty (kept, logged)
  | inr given ↦ elim (Bool-cases bus.closed) [
    | inl closed ↦ rw (given, closed) (kept, logged)
    | inr open_bus ↦
        let p = placed (record bus { closed = false }) topic event key in
        rw (given, open_bus)
          (publish-AtLeastOnce p bus claimed kept, append_event-IsLogged p bus refl logged)
  ]
]

claim-Invariant :
    (topic group id : String) (bus : Bus) (claimed queue : List ConsumedEvent)
    (message : Option ConsumedEvent)
    → get (topic, group) bus.queues ≡ some queue
    → (claim topic group id bus).0 ≡ ok message
    → Invariant (bus, claimed)
    → Invariant ((claim topic group id bus).1, held message claimed)
unfolding claim claim_from
claim-Invariant topic group id bus claimed queue message found returns (kept, logged) =
    let is : claimed_message group id (take_pending bus.acknowledged group queue).0 ≡ message =
      ok-injective (rw found at returns) in
    rw found (
      subst
          (λ o.
            AtLeastOnce (with_queue topic group (take_pending bus.acknowledged group queue).1 bus)
              (held o claimed))
          is (claim-AtLeastOnce topic group id bus claimed queue found kept),
      logged,
    )

consume-Invariant :
    (topic group id : String) (message : Option ConsumedEvent) (bus : Bus)
    (claimed : List ConsumedEvent)
    → (consume topic group id bus).0 ≡ ok message
    → Invariant (bus, claimed)
    → Invariant ((consume topic group id bus).1, held message claimed)
unfolding consume subscribe
consume-Invariant topic group id message bus claimed returns (kept, logged) =
    elim (Bool-cases (group == "")) [
      | inl no_group ↦ absurd (raise≢ok (rw no_group at returns))
      | inr some_group ↦ elim (Bool-cases (id == "")) [
        | inl no_id ↦ absurd (raise≢ok (rw (some_group, no_id) at returns))
        | inr some_id ↦ elim (Bool-cases bus.closed) [
          | inl closed ↦ absurd (raise≢ok (rw (some_group, some_id, closed) at returns))
          | inr open_bus ↦
              let b : Bus = record bus { closed = false } in
              let ready = subscribed topic group (get (topic, group) b.queues) b in
              let (queue, found) = subscribed-get topic group b in
              let returns' : (claim topic group id ready).0 ≡ ok message =
                rw (some_group, some_id, open_bus) at returns in
              rw (some_group, some_id, open_bus)
                (claim-Invariant topic group id ready claimed queue message found returns' (
                  subscribe-AtLeastOnce topic group b claimed kept,
                  subscribed-IsLogged topic group _ b logged,
                ))
        ]
      ]
    ]

acknowledge-IsLogged :
    (message : ConsumedEvent) (bus : Bus)
    → IsLogged bus.logs
    → IsLogged (acknowledge message bus).1.logs
unfolding acknowledge
acknowledge-IsLogged message bus logged = logged

retry-Invariant :
    (supply : Supply) (message : ConsumedEvent) (reason : String) (bus : Bus)
    (before after : List ConsumedEvent)
    → (retry supply message reason bus).0 ≡ ok tt
    → Invariant (bus, before ++ message ∷ after)
    → Invariant ((retry supply message reason bus).1, before ++ after)
unfolding retry
retry-Invariant supply message reason bus before after returns (kept, logged) =
    elim (Bool-cases (reason == "")) [
      | inl no_reason ↦ absurd (raise≢ok (rw no_reason at returns))
      | inr given ↦ elim (Option-cases (get (message.topic, message.consumer_group) bus.queues)) [
        | inl absent ↦ absurd (raise≢ok (rw (given, absent) at returns))
        | inr (queue, found) ↦
            elim (Result-cases (
              next_attempt (supply.uuid bus.issued) (supply.clock bus.issued) none message.event)) [
                | inl (event, is) ↦
                    rw (given, found, is)
                      (
                        retry-AtLeastOnce bus before after queue message event found logged.filed
                            kept,
                        logged,
                      )
                | inr (x, is) ↦ absurd (raise≢ok (rw (given, found, is) at returns))
              ]
      ]
    ]

dead_letter-Invariant :
    (supply : Supply) (message : ConsumedEvent) (reason : String) (published : PublishedEvent)
    (bus : Bus) (before after : List ConsumedEvent)
    → (dead_letter supply message reason bus).0 ≡ ok published
    → Invariant (bus, before ++ message ∷ after)
    → Invariant ((dead_letter supply message reason bus).1, before ++ after)
unfolding dead_letter
dead_letter-Invariant supply message reason published bus before after returns holds =
    let letter =
      dead_letter_event supply (supply.uuid bus.issued) (supply.clock bus.issued) message reason in
    let next : Bus = record bus { issued = suc bus.issued } in
    elim (Result-cases (validated letter)) [
      | inl (event, is) ↦ elim (Result-cases (publish Topic.dlq event message.key next).0) [
        | inl (p, sent) ↦
            let (kept, logged) =
              publish-Invariant Topic.dlq event message.key next (before ++ message ∷ after)
                holds in
            rw (is, sent)
              (
                acknowledge-AtLeastOnce (publish Topic.dlq event message.key next).1 before after
                    message kept,
                acknowledge-IsLogged message (publish Topic.dlq event message.key next).1 logged,
              )
        | inr (x, refused) ↦ absurd (raise≢ok (rw (is, refused) at returns))
      ]
      | inr (x, is) ↦ absurd (raise≢ok (rw is at returns))
    ]

Step-Invariant : (supply : Supply) {s t : State} → Step supply s t → Invariant s → Invariant t
Step-Invariant supply (publishes topic event key bus claimed) holds =
    publish-Invariant topic event key bus claimed holds
Step-Invariant supply (issues bus claimed) holds = holds
Step-Invariant supply (consumes topic group id message bus claimed returns) holds =
    consume-Invariant topic group id message bus claimed returns holds
Step-Invariant supply (acknowledges message bus before after) (kept, logged) =
    (acknowledge-AtLeastOnce bus before after message kept, acknowledge-IsLogged message bus logged)
Step-Invariant supply (retries message reason bus before after returns) holds =
    retry-Invariant supply message reason bus before after returns holds
Step-Invariant supply (dead_letters message reason published bus before after returns) holds =
    dead_letter-Invariant supply message reason published bus before after returns holds

Reaches-Invariant : (supply : Supply) {s t : State} → Reaches supply s t → Invariant s → Invariant t
Reaches-Invariant supply (here s) holds = holds
Reaches-Invariant supply (then_step s t u reached step) holds =
    Step-Invariant supply step (Reaches-Invariant supply reached holds)

Reaches-HoldsWork :
    (supply : Supply) {s t : State} → Reaches supply s t → Invariant s → HoldsWork s → HoldsWork t
Reaches-HoldsWork supply (here s) holds c = c
Reaches-HoldsWork supply (then_step s t u reached step) holds c =
    Step-HoldsWork supply step (Reaches-Invariant supply reached holds).1
      (Reaches-HoldsWork supply reached holds c)

new_bus-HoldsWork :
    (partitions : ℕ) (bus : Bus) → make_bus partitions ≡ ok bus → HoldsWork (bus, [])
unfolding get
new_bus-HoldsWork partitions bus made = elim (Bool-cases (ltb partitions 1)) [
  | inl none_given ↦ absurd (raise≢ok (rw none_given at made))
  | inr given ↦
      subst (λ b. HoldsWork (b, [])) (ok-injective (rw given at made))
        (record { queued = λ topic group queue m found n. cc; claims = λ m n. elim n [ ] })
]

new_bus-acknowledged :
    (partitions : ℕ) (bus : Bus)
    → make_bus partitions ≡ ok bus
    → (key : AckKey) → ¬ Memᴰ key bus.acknowledged
new_bus-acknowledged partitions bus made = elim (Bool-cases (ltb partitions 1)) [
  | inl none_given ↦ absurd (raise≢ok (rw none_given at made))
  | inr given ↦
      subst (λ b. (key : AckKey) → ¬ Memᴰ key b.acknowledged) (ok-injective (rw given at made))
        (λ key m. elim m [ ])
]

new_bus-Invariant :
    (partitions : ℕ) (bus : Bus) → make_bus partitions ≡ ok bus → Invariant (bus, [])
unfolding get
new_bus-Invariant partitions bus made = elim (Bool-cases (ltb partitions 1)) [
  | inl none_given ↦ absurd (raise≢ok (rw none_given at made))
  | inr given ↦
      subst (λ b. Invariant (b, [])) (ok-injective (rw given at made))
        (
          (λ topic group queue item found m. elim m [ ]),
          record {
            filed = λ topic item m. elim m [ ];
            below = λ topic item m. elim m [ ];
            distinct = λ topic group. tt;
          },
        )
]

-- What the bus owes to its groups after the calls of a trace.
pub record Delivers {supply : Supply} {s : State} (bus : Bus) (claimed : List ConsumedEvent)
    (trace : Reaches supply s (bus, claimed)) : Type 0 where
  pub kept : AtLeastOnce bus claimed
  pub distinct :
      (topic group : String) → IsDistinct (map (λ item. item_key item group) (log_of bus topic))
  pub carried : IsCarried bus.logs bus.queues claimed
  pub settled : (key : AckKey) → Memᴰ key bus.acknowledged → IsSettled trace key

-- At-least-once delivery: however publications, subscriptions, claims, acknowledgements,
-- retries and dead letters follow each other from a new bus, for each group that has subscribed
-- to a topic and each event published to it, the group has acknowledged the key of the event,
-- or a message with that key is on the queue of the group or claimed by one of its consumers;
-- no two events of a topic have the same key; each message that is queued or claimed has the
-- key of an event of its topic, and the type, the run, the correlation and the payload of that
-- event; and each key that is acknowledged is that of a message that a consumer had claimed and
-- then acknowledged or dead-lettered in a step of the trace.
pub reached-Delivers :
    (supply : Supply) (partitions : ℕ) (start bus : Bus) (claimed : List ConsumedEvent)
    → make_bus partitions ≡ ok start
    → (trace : Reaches supply (start, []) (bus, claimed)) → Delivers bus claimed trace
reached-Delivers supply partitions start bus claimed made trace =
    let (kept, logged) = Reaches-Invariant supply trace (new_bus-Invariant partitions start made) in
    record {
      kept = kept;
      distinct = logged.distinct;
      carried =
          Reaches-HoldsWork supply trace (new_bus-Invariant partitions start made)
            (new_bus-HoldsWork partitions start made);
      settled = λ key m. elim (Reaches-IsSettled trace key m) [
        | inl early ↦ absurd (new_bus-acknowledged partitions start made key early)
        | inr settled ↦ settled
      ];
    }
