-- ===== src/Event/Bus/Delivery/Claims.antt =====
-- Claims, retries and settlements of the bus of event_layer/bus.py keep what a message carries.
use kuber.Base.{
  ◌+◌, Bool-cases, String, ◌≡◌, refl, sym, ap, subst, ◌∙◌, inl, inr, Option, none, some, List, [],
  ◌∷◌, ◌++◌, Memᴰ, ◌==◌, string_eq, pair_eq, contains,
}
use kuber.Base.Lists.{Memᴰ-append_cases, Memᴰ-append_left, Memᴰ-append_right, Memᴰ-cons_cases}
use kuber.Base.Dict.{Dict, get, put}
use kuber.Base.Result.{ok, ok-injective, raise≢ok}
use kuber.Event.Contracts.{EventEnvelope, cause, next_attempt, validated}
use kuber.Event.Bus.{
  PublishedEvent, ConsumedEvent, AckKey, ack_key_eq, Bus, log_of, ack_key, take_pending, claimed_by,
  claimed_message,
}
use kuber.Event.Bus.Settle.{redelivered}
use kuber.Event.Bus.Delivery.{some-injective}
use kuber.Event.Bus.Delivery.Steps.{held}
use kuber.Event.Bus.Delivery.Carried.{
  SameWork, SameWork-trans, Carries, IsCarried, Queues, put-IsCarried,
}

take_pending-rest :
    (acknowledged : List AckKey) (group : String) (queue : List ConsumedEvent) {m : ConsumedEvent}
    → Memᴰ m (take_pending acknowledged group queue).1
    → Memᴰ m queue
unfolding take_pending
take_pending-rest acknowledged group [] n = n
take_pending-rest acknowledged group (x ∷ xs) n =
    elim (Bool-cases (contains acknowledged (ack_key x group))) [
      | inl done ↦ Memᴰ.tail (take_pending-rest acknowledged group xs (rw done at n))
      | inr pending ↦ Memᴰ.tail (rw pending at n)
    ]

take_pending-first :
    (acknowledged : List AckKey) (group : String) (queue : List ConsumedEvent) (m : ConsumedEvent)
    → (take_pending acknowledged group queue).0 ≡ some m
    → Memᴰ m queue
unfolding take_pending
take_pending-first acknowledged group [] m h = cc
take_pending-first acknowledged group (x ∷ xs) m h =
    elim (Bool-cases (contains acknowledged (ack_key x group))) [
      | inl done ↦ Memᴰ.tail (take_pending-first acknowledged group xs m (rw done at h))
      | inr pending ↦ Memᴰ.head (sym (some-injective (rw pending at h)))
    ]

-- A claim moves a message from the queue to those that are claimed.
pub claim-IsCarried :
    (topic group id : String) (bus : Bus) (claimed queue : List ConsumedEvent)
    → ((t : String) (item : PublishedEvent) → Memᴰ item (log_of bus t) → item.topic ≡ t)
    → get (topic, group) bus.queues ≡ some queue
    → IsCarried bus.logs bus.queues claimed
    → IsCarried bus.logs
        (put (topic, group) (take_pending bus.acknowledged group queue).1 bus.queues)
        (held (claimed_message group id (take_pending bus.acknowledged group queue).0) claimed)
claim-IsCarried topic group id bus claimed queue filed found c =
    put-IsCarried topic group (take_pending bus.acknowledged group queue).1 bus.logs bus.queues
      claimed
      (held (claimed_message group id (take_pending bus.acknowledged group queue).0) claimed)
      (λ m n. c.queued topic group queue m found (take_pending-rest bus.acknowledged group queue n))
      (still (take_pending bus.acknowledged group queue).0
        (take_pending-first bus.acknowledged group queue))
      c
  where
    now :
        (x : ConsumedEvent) → Memᴰ x queue → Carries bus.logs x.topic group (claimed_by group id x)
    now x n =
        let k = c.queued topic group queue x found n in
        subst (λ t. Carries bus.logs t group (claimed_by group id x))
          (sym (ap (λ a. a.topic) k.keyed ∙ filed topic k.item k.logged))
          (record { item = k.item; logged = k.logged; keyed = k.keyed; work = k.work })

    still :
        (o : Option ConsumedEvent)
        → ((x : ConsumedEvent) → o ≡ some x → Memᴰ x queue)
        → (m : ConsumedEvent) → Memᴰ m (held (claimed_message group id o) claimed)
        → Carries bus.logs m.topic m.consumer_group m
    still none first m n = c.claims m n
    still (some x) first m n = elim (Memᴰ-cons_cases n) [
      | inl same ↦
          subst (λ y. Carries bus.logs y.topic y.consumer_group y) (sym same) (now x (first x refl))
      | inr old ↦ c.claims m old
    ]

other_claims :
    (before after : List ConsumedEvent) (m : ConsumedEvent) {x : ConsumedEvent}
    → Memᴰ x (before ++ after)
    → Memᴰ x (before ++ m ∷ after)
other_claims before after m n = elim (Memᴰ-append_cases before n) [
  | inl left ↦ Memᴰ-append_left _ left
  | inr right ↦ Memᴰ-append_right before (Memᴰ.tail right)
]

pub settle-IsCarried :
    (logs : Dict String (List PublishedEvent)) (queues : Queues) (before after : List ConsumedEvent)
    (m : ConsumedEvent)
    → IsCarried logs queues (before ++ m ∷ after)
    → IsCarried logs queues (before ++ after)
settle-IsCarried logs queues before after m c = record {
  queued = c.queued;
  claims = λ x n. c.claims x (other_claims before after m n);
}

validated_inv : (e : EventEnvelope) {f : EventEnvelope} → validated e ≡ ok f → f ≡ e
unfolding validated
validated_inv e h = elim (Bool-cases (e.event_id == "")) [
  | inl a ↦ absurd (raise≢ok (rw a at h))
  | inr a ↦ elim (Bool-cases (e.run_id == "")) [
    | inl b ↦ absurd (raise≢ok (rw (a, b) at h))
    | inr b ↦ elim (Bool-cases (e.correlation_id == "")) [
      | inl c ↦ absurd (raise≢ok (rw (a, b, c) at h))
      | inr c ↦ elim (Bool-cases (e.schema_version == "")) [
        | inl d ↦ absurd (raise≢ok (rw (a, b, c, d) at h))
        | inr d ↦ elim (Bool-cases (e.schema_version == "1")) [
          | inl f ↦ sym (ok-injective (rw (a, b, c, d, f) at h))
          | inr f ↦ absurd (raise≢ok (rw (a, b, c, d, f) at h))
        ]
      ]
    ]
  ]
]

next_attempt_inv :
    (id time : String) (e : EventEnvelope) {f : EventEnvelope}
    → next_attempt id time none e ≡ ok f
    → SameWork f e
unfolding next_attempt
next_attempt_inv id time e h =
    let next : EventEnvelope = record e {
      event_id = id;
      timestamp = time;
      causation_id = some (cause none e.event_id);
      attempt = e.attempt + 1;
    } in
    let is = validated_inv next h in
    record {
      kind = ap (λ x. x.event_type) is;
      run = ap (λ x. x.run_id) is;
      correlation = ap (λ x. x.correlation_id) is;
      payload = ap (λ x. x.payload) is;
    }

pub retry-IsCarried :
    (id time : String) (logs : Dict String (List PublishedEvent)) (queues : Queues)
    (before after queue : List ConsumedEvent) (m : ConsumedEvent) (event : EventEnvelope)
    → get (m.topic, m.consumer_group) queues ≡ some queue
    → next_attempt id time none m.event ≡ ok event
    → IsCarried logs queues (before ++ m ∷ after)
    → IsCarried logs
        (put (m.topic, m.consumer_group) (queue ++ redelivered m event ∷ []) queues)
        (before ++ after)
retry-IsCarried id time logs queues before after queue m event found is c =
    put-IsCarried m.topic m.consumer_group (queue ++ redelivered m event ∷ []) logs queues
      (before ++ m ∷ after) (before ++ after)
      (λ x n. elim (Memᴰ-append_cases queue n) [
        | inl old ↦ c.queued m.topic m.consumer_group queue x found old
        | inr (Memᴰ.tail k) ↦ elim k [ ]
        | inr (Memᴰ.head new) ↦
            let k = c.claims m (Memᴰ-append_right before (Memᴰ.head refl)) in
            subst (Carries logs m.topic m.consumer_group) (sym new) (record {
              item = k.item;
              logged = k.logged;
              keyed = k.keyed;
              work = SameWork-trans (next_attempt_inv id time m.event is) k.work;
            })
      ])
      (λ x n. c.claims x (other_claims before after m n)) c
