-- ===== src/Event/Bus/Reach/Settled.antt =====
-- What the bus of event_layer/bus.py has acknowledged: only messages that a consumer had claimed.
use kuber.Base.{
  suc, false, ◌∙◌, ◌≡◌, refl, sym, subst, ◌⊎◌, inl, inr, String, Option, none, some, List, Memᴰ,
  ◌==◌, string_eq, pair_eq, contains, Bool-cases, Option-cases,
}
use kuber.Base.Lists.{Memᴰ-cons_cases}
use kuber.Base.Dict.{get}
use kuber.Base.Result.{Result-cases}
use kuber.Event.Contracts.{EventEnvelope, validated, next_attempt}
use kuber.Event.Topic
use kuber.Event.Bus.{
  ConsumedEvent, AckKey, ack_key_eq, Bus, ack_key, publish, subscribe, subscribed, claim,
  claim_from, consume,
}
use kuber.Event.Bus.Settle.{Supply, add_to_set, acknowledge, retry, dead_letter, dead_letter_event}
use kuber.Event.Bus.Reach.Steps.{
  State, Step, publishes, issues, consumes, acknowledges, retries, dead_letters, Reaches, here,
  then_step,
}

-- The step settles a claimed message that has the key, and acknowledges or dead-letters it.
abbrev pub StepSettles : {supply : Supply} {s t : State} → Step supply s t → AckKey → Type 0
StepSettles (publishes topic event name bus claimed) key = ⊥
StepSettles (issues bus claimed) key = ⊥
StepSettles (consumes topic group id message bus claimed returns) key = ⊥
StepSettles (acknowledges message bus before after) key =
    ack_key message message.consumer_group ≡ key
StepSettles (retries message reason bus before after returns) key = ⊥
StepSettles (dead_letters message reason published bus before after returns) key =
    ack_key message message.consumer_group ≡ key

-- Some step of the trace does.
abbrev pub IsSettled : {supply : Supply} {s t : State} → Reaches supply s t → AckKey → Type 0
IsSettled (here s) key = ⊥
IsSettled (then_step s t u reached step) key = StepSettles step key ⊎ IsSettled reached key

publish-acknowledged :
    (topic : String) (event : EventEnvelope) (name : String) (bus : Bus)
    → (publish topic event name bus).1.acknowledged ≡ bus.acknowledged
unfolding publish
publish-acknowledged topic event name bus = elim (Bool-cases (name == "")) [
  | inl empty ↦ rw empty refl
  | inr given ↦ elim (Bool-cases bus.closed) [
    | inl closed ↦ rw (given, closed) refl
    | inr open_bus ↦ rw (given, open_bus) refl
  ]
]

subscribed-acknowledged :
    (topic group : String) (o : Option (List ConsumedEvent)) (bus : Bus)
    → (subscribed topic group o bus).acknowledged ≡ bus.acknowledged
subscribed-acknowledged topic group none bus = refl
subscribed-acknowledged topic group (some queue) bus = refl

claim_from-acknowledged :
    (topic group id : String) (o : Option (List ConsumedEvent)) (bus : Bus)
    → (claim_from topic group id o bus).1.acknowledged ≡ bus.acknowledged
unfolding claim_from
claim_from-acknowledged topic group id none bus = refl
claim_from-acknowledged topic group id (some queue) bus = refl

consume-acknowledged :
    (topic group id : String) (bus : Bus)
    → (consume topic group id bus).1.acknowledged ≡ bus.acknowledged
unfolding consume subscribe claim
consume-acknowledged topic group id bus = elim (Bool-cases (group == "")) [
  | inl no_group ↦ rw no_group refl
  | inr some_group ↦ elim (Bool-cases (id == "")) [
    | inl no_id ↦ rw (some_group, no_id) refl
    | inr some_id ↦ elim (Bool-cases bus.closed) [
      | inl closed ↦ rw (some_group, some_id, closed) refl
      | inr open_bus ↦
          rw (some_group, some_id, open_bus)
            (claim_from-acknowledged topic group id _ _
              ∙ subscribed-acknowledged topic group _ (record bus { closed = false }))
    ]
  ]
]

retry-acknowledged :
    (supply : Supply) (message : ConsumedEvent) (reason : String) (bus : Bus)
    → (retry supply message reason bus).1.acknowledged ≡ bus.acknowledged
unfolding retry
retry-acknowledged supply message reason bus = elim (Bool-cases (reason == "")) [
  | inl no_reason ↦ rw no_reason refl
  | inr given ↦ elim (Option-cases (get (message.topic, message.consumer_group) bus.queues)) [
    | inl absent ↦ rw (given, absent) refl
    | inr (queue, found) ↦
        elim (Result-cases
          (next_attempt (supply.uuid bus.issued) (supply.clock bus.issued) none message.event)) [
            | inl (event, is) ↦ rw (given, found, is) refl
            | inr (x, is) ↦ rw (given, found, is) refl
          ]
  ]
]

add_to_set_inv :
    (key : AckKey) (set : List AckKey) {k : AckKey}
    → Memᴰ k (add_to_set key set)
    → (key ≡ k) ⊎ Memᴰ k set
add_to_set_inv key set m = elim (Bool-cases (contains set key)) [
  | inl there ↦ inr (rw there at m)
  | inr new ↦ elim (Memᴰ-cons_cases (rw new at m)) [ inl same ↦ inl (sym same) | inr old ↦ inr old ]
]

acknowledge_inv :
    (message : ConsumedEvent) (bus : Bus) {key : AckKey}
    → Memᴰ key (acknowledge message bus).1.acknowledged
    → (ack_key message message.consumer_group ≡ key) ⊎ Memᴰ key bus.acknowledged
unfolding acknowledge
acknowledge_inv message bus m =
    add_to_set_inv (ack_key message message.consumer_group) bus.acknowledged m

dead_letter_inv :
    (supply : Supply) (message : ConsumedEvent) (reason : String) (bus : Bus) (key : AckKey)
    → Memᴰ key (dead_letter supply message reason bus).1.acknowledged
    → (ack_key message message.consumer_group ≡ key) ⊎ Memᴰ key bus.acknowledged
unfolding dead_letter
dead_letter_inv supply message reason bus key m =
    let next : Bus = record bus { issued = suc bus.issued } in
    let letter =
      dead_letter_event supply (supply.uuid bus.issued) (supply.clock bus.issued) message reason in
    elim (Result-cases (validated letter)) [
      | inr (x, is) ↦ inr (rw is at m)
      | inl (event, is) ↦
          let same = publish-acknowledged Topic.dlq event message.key next in
          elim (Result-cases (publish Topic.dlq event message.key next).0) [
            | inr (x, refused) ↦ inr (subst (Memᴰ key) same (rw (is, refused) at m))
            | inl (p, sent) ↦
                elim (acknowledge_inv message (publish Topic.dlq event message.key next).1
                  (rw (is, sent) at m)) [
                    | inl now ↦ inl now
                    | inr before ↦ inr (subst (Memᴰ key) same before)
                  ]
          ]
    ]

Step-settled :
    {supply : Supply} {s t : State} (step : Step supply s t) (key : AckKey)
    → Memᴰ key t.0.acknowledged
    → StepSettles step key ⊎ Memᴰ key s.0.acknowledged
Step-settled (publishes topic event name bus claimed) key m =
    inr (subst (Memᴰ key) (publish-acknowledged topic event name bus) m)
Step-settled (issues bus claimed) key m = inr m
Step-settled (consumes topic group id message bus claimed returns) key m =
    inr (subst (Memᴰ key) (consume-acknowledged topic group id bus) m)
Step-settled (acknowledges message bus before after) key m = acknowledge_inv message bus m
Step-settled {supply} (retries message reason bus before after returns) key m =
    inr (subst (Memᴰ key) (retry-acknowledged supply message reason bus) m)
Step-settled {supply} (dead_letters message reason published bus before after returns) key m =
    dead_letter_inv supply message reason bus key m

pub Reaches-IsSettled :
    {supply : Supply} {s t : State} (trace : Reaches supply s t) (key : AckKey)
    → Memᴰ key t.0.acknowledged
    → Memᴰ key s.0.acknowledged ⊎ IsSettled trace key
Reaches-IsSettled (here s) key m = inl m
Reaches-IsSettled (then_step s t u reached step) key m = elim (Step-settled step key m) [
  | inl now ↦ inr (inl now)
  | inr before ↦ elim (Reaches-IsSettled reached key before) [
    | inl early ↦ inl early
    | inr settled ↦ inr (inr settled)
  ]
]
