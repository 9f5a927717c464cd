-- ===== src/Event/Bus/Delivery/Carried.antt =====
-- What the messages of the bus of event_layer/bus.py carry: the work of the event that they are for.
use kuber.Base.{
  Bool-cases, Option-cases, String, ◌≡◌, refl, sym, ap, subst, ◌∙◌, inl, inr, Option, none, some,
  List, [], ◌∷◌, ◌++◌, map, Memᴰ, ◌==◌, ==_iff, ==_refl, string_eq, pair_eq, if◌then◌else◌,
}
use kuber.Base.Lists.{Memᴰ-append_cases, Memᴰ-append_left, Memᴰ-append_right, Memᴰ-map_inv}
use kuber.Base.Dict.{Dict, get, put, get-put}
use kuber.Event.Contracts.{EventEnvelope}
use kuber.Event.Bus.{
  PublishedEvent, ConsumedEvent, ack_key_eq, Bus, log_of, log_or_empty, consumed, ack_key,
  append_event, subscribed,
}
use kuber.Event.Bus.Delivery.{item_key, some-injective, pair_inj, put_on_queues-get}
use kuber.Event.Bus.Delivery.Logs.{log-cases}

-- Two envelopes ask for the same work: they may differ in identity, time, cause and attempt.
pub record SameWork (a b : EventEnvelope) : Type 0 where
  pub kind : a.event_type ≡ b.event_type
  pub run : a.run_id ≡ b.run_id
  pub correlation : a.correlation_id ≡ b.correlation_id
  pub payload : a.payload ≡ b.payload

SameWork-refl : (a : EventEnvelope) → SameWork a a
SameWork-refl a = record { kind = refl; run = refl; correlation = refl; payload = refl }

pub SameWork-trans : {a b c : EventEnvelope} → SameWork a b → SameWork b c → SameWork a c
SameWork-trans s t = record {
  kind = s.kind ∙ t.kind;
  run = s.run ∙ t.run;
  correlation = s.correlation ∙ t.correlation;
  payload = s.payload ∙ t.payload;
}

-- A message for a group is for an event of the topic: it has its key and its work.
pub record Carries (logs : Dict String (List PublishedEvent)) (topic group : String)
    (m : ConsumedEvent) : Type 0 where
  pub item : PublishedEvent
  pub logged : Memᴰ item (log_or_empty (get topic logs))
  pub keyed : ack_key m group ≡ item_key item group
  pub work : SameWork m.event item.event

abbrev pub Queues : Type 0
Queues = Dict (String × String) (List ConsumedEvent)

-- So is every message that is queued or claimed.
pub record IsCarried (logs : Dict String (List PublishedEvent)) (queues : Queues)
    (claimed : List ConsumedEvent) : Type 0 where
  pub queued :
      (topic group : String) (queue : List ConsumedEvent) (m : ConsumedEvent)
      → get (topic, group) queues ≡ some queue
      → Memᴰ m queue
      → Carries logs topic group m
  pub claims : (m : ConsumedEvent) → Memᴰ m claimed → Carries logs m.topic m.consumer_group m

-- A queue is written.
pub put-IsCarried :
    (topic group : String) (queue : List ConsumedEvent) (logs : Dict String (List PublishedEvent))
    (queues : Queues) (claimed later : List ConsumedEvent)
    → ((m : ConsumedEvent) → Memᴰ m queue → Carries logs topic group m)
    → ((m : ConsumedEvent) → Memᴰ m later → Carries logs m.topic m.consumer_group m)
    → IsCarried logs queues claimed
    → IsCarried logs (put (topic, group) queue queues) later
put-IsCarried topic group queue logs queues claimed later here still c = record {
  queued = λ t g after m found n.
      let written = sym (get-put (topic, group) (t, g) queue queues) ∙ found in
      elim (Bool-cases (◌==◌ {A = String × String} (topic, group) (t, g))) [
        | inl same ↦
            let (same_topic, same_group) =
              pair_inj ((==_iff {A = String × String} (topic, group) (t, g)).0 same) in
            let is : queue ≡ after = some-injective (rw same at written) in
            subst (λ u. Carries logs u g m) same_topic
              (subst (λ f. Carries logs topic f m) same_group (here m (subst (Memᴰ m) (sym is) n)))
        | inr other ↦ c.queued t g after m (rw other at written) n
      ];
  claims = still;
}

Carries-more :
    (logs later : Dict String (List PublishedEvent)) (topic group : String) (m : ConsumedEvent)
    → ((item : PublishedEvent)
        → Memᴰ item (log_or_empty (get topic logs))
        → Memᴰ item (log_or_empty (get topic later)))
    → Carries logs topic group m
    → Carries later topic group m
Carries-more logs later topic group m more c = record {
  item = c.item;
  logged = more c.item c.logged;
  keyed = c.keyed;
  work = c.work;
}

module _ (p : PublishedEvent) (bus : Bus) where
  log-more :
      (topic : String) (item : PublishedEvent)
      → Memᴰ item (log_of bus topic)
      → Memᴰ item (log_of (append_event p bus) topic)
  log-more topic item m = elim (log-cases p bus topic) [
    | inl (same, is) ↦
        subst (Memᴰ item) (sym is)
          (Memᴰ-append_left _ (subst (λ t. Memᴰ item (log_of bus t)) (sym same) m))
    | inr is ↦ subst (Memᴰ item) (sym is) m
  ]

  log-new : Memᴰ p (log_of (append_event p bus) p.topic)
  log-new =
      subst (λ o. Memᴰ p (log_or_empty o))
        (sym (get-put p.topic p.topic (log_of bus p.topic ++ p ∷ []) bus.logs))
        (rw ((==_iff p.topic p.topic).1 refl)
          (Memᴰ-append_right (log_of bus p.topic) (Memᴰ.head refl)))

  pub publish-IsCarried :
      (claimed : List ConsumedEvent)
      → IsCarried bus.logs bus.queues claimed
      → IsCarried (append_event p bus).logs (append_event p bus).queues claimed
  publish-IsCarried claimed c = record {
    queued = λ topic group queue m found n.
        let (before, found_before, is) =
          put_on_queues-get p.topic (consumed p "" "") bus.queues topic group queue found in
        let old : Memᴰ m before → Carries (append_event p bus).logs topic group m = λ k.
          Carries-more bus.logs (append_event p bus).logs topic group m (log-more topic)
            (c.queued topic group before m found_before k) in
        elim (Bool-cases (topic == p.topic)) [
          | inr other ↦ old (subst (Memᴰ m) (rw other at is) n)
          | inl same ↦ elim (Memᴰ-append_cases before (subst (Memᴰ m) (rw same at is) n)) [
            | inl k ↦ old k
            | inr (Memᴰ.tail k) ↦ elim k [ ]
            | inr (Memᴰ.head new) ↦
                subst (λ t. Carries (append_event p bus).logs t group m)
                  (sym ((==_iff topic p.topic).0 same))
                  (record {
                    item = p;
                    logged = log-new;
                    keyed = ap (λ x. ack_key x group) new;
                    work = subst (λ x. SameWork x.event p.event) (sym new) (SameWork-refl p.event);
                  })
          ]
        ];
    claims = λ m n.
        Carries-more bus.logs (append_event p bus).logs m.topic m.consumer_group m
          (log-more m.topic) (c.claims m n);
  }

pub subscribe-IsCarried :
    (topic group : String) (o : Option (List ConsumedEvent)) (bus : Bus)
    (claimed : List ConsumedEvent)
    → IsCarried bus.logs bus.queues claimed
    → IsCarried (subscribed topic group o bus).logs (subscribed topic group o bus).queues claimed
subscribe-IsCarried topic group (some queue) bus claimed c = c
subscribe-IsCarried topic group none bus claimed c =
    put-IsCarried topic group (map (λ x. consumed x group "") (log_of bus topic)) bus.logs
      bus.queues claimed claimed
      (λ m n.
        let (item, k, is) = Memᴰ-map_inv (λ x. consumed x group "") (log_of bus topic) n in
        record {
          item = item;
          logged = k;
          keyed = ap (λ x. ack_key x group) is;
          work = subst (λ x. SameWork x.event item.event) (sym is) (SameWork-refl item.event);
        })
      c.claims c

-- A group that subscribes has a queue.
pub subscribed-get :
    (topic group : String) (bus : Bus)
    → (queue : List ConsumedEvent) × (get
          (topic, group)
          (subscribed topic group (get (topic, group) bus.queues) bus).queues
        ≡ some queue)
subscribed-get topic group bus = elim (Option-cases (get (topic, group) bus.queues)) [
  | inl absent ↦ rw absent (
    map (λ x. consumed x group "") (log_of bus topic),
    get-put (topic, group) (topic, group) _ bus.queues
        ∙ ap
            (λ b.
              if b
              then some (map (λ x. consumed x group "") (log_of bus topic))
              else get (topic, group) bus.queues)
            (==_refl {A = String × String} (topic, group)),
  )
  | inr (queue, is) ↦
      (queue, ap (λ o. get (topic, group) (subscribed topic group o bus).queues) is ∙ is)
]
