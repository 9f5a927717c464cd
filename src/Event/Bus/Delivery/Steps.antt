-- ===== src/Event/Bus/Delivery/Steps.antt =====
-- The steps of the bus and of its consumers, in any order, and that each keeps every event.
use mathlib.Core.Bool.{false≢true}
use kuber.Base.{
  Bool-cases, String, ◌≡◌, refl, sym, ap, ap₂, subst, ◌∙◌, ◌⊎◌, inl, inr, Option, none, some, List,
  [], ◌∷◌, ◌++◌, Memᴰ, ◌==◌, ==_iff, string_eq, pair_eq, contains, contains_iff,
}
use kuber.Base.Lists.{Memᴰ-append_cases, Memᴰ-append_left, Memᴰ-append_right}
use kuber.Base.Dict.{get, put, get-put}
use kuber.Event.Bus.{
  PublishedEvent, ConsumedEvent, AckKey, ack_key_eq, Bus, log_of, ack_key, take_pending, claimed_by,
  claimed_message,
}
use kuber.Event.Bus.Settle.{add_to_set, redelivered, acknowledge}
use kuber.Event.Contracts.{EventEnvelope}
use kuber.Event.Bus.Delivery.{
  item_key, IsKept, AtLeastOnce, some-injective, pair_inj, take_pending-keeps,
}

-- The queues after one of them is written.
abbrev pub with_queue : String → String → List ConsumedEvent → Bus → Bus
with_queue topic group queue bus = record bus { queues = put (topic, group) queue bus.queues }

-- What the write keeps, where it keeps the items of that group.
with_queue-AtLeastOnce :
    (topic group : String) (queue : List ConsumedEvent) (bus : Bus)
    (claimed later : List ConsumedEvent)
    → AtLeastOnce bus claimed
    → ((item : PublishedEvent)
        → Memᴰ item (log_of bus topic)
        → IsKept bus later queue (item_key item group))
    → ((t g : String) (q : List ConsumedEvent) (item : PublishedEvent)
        → Memᴰ item (log_of bus t)
        → ((topic ≡ t) × (group ≡ g) → ⊥)
        → IsKept bus claimed q (item_key item g)
        → IsKept bus later q (item_key item g))
    → AtLeastOnce (with_queue topic group queue bus) later
with_queue-AtLeastOnce topic group queue bus claimed later kept here elsewhere t g after item found
      m =
    let written = sym (get-put (topic, group) (t, g) queue bus.queues) ∙ found in
    elim (Bool-cases (◌==◌ {A = String × String} (topic, group) (t, g))) [
      | inl same ↦
          let (same_topic, same_group) =
            pair_inj ((==_iff {A = String × String} (topic, group) (t, g)).0 same) in
          let is : queue ≡ after = some-injective (rw same at written) in
          subst (λ q. IsKept bus later q (item_key item g)) is
            (subst (λ f. IsKept bus later queue (item_key item f)) same_group
              (here item (subst (λ u. Memᴰ item (log_of bus u)) (sym same_topic) m)))
      | inr other ↦
          elsewhere t g after item m
            (λ both. false≢true (
              sym other
              ∙ (==_iff {A = String × String} (topic, group) (t, g)).1
                  (ap₂ (λ a b. (a, b)) both.0 both.1)))
            (kept t g after item (rw other at written) m)
    ]

-- A message that is claimed in addition.
IsKept-claimed :
    (bus : Bus) {claimed later : List ConsumedEvent} (queue : List ConsumedEvent) (key : AckKey)
    → ((m : ConsumedEvent) → Memᴰ m claimed → Memᴰ m later)
    → IsKept bus claimed queue key
    → IsKept bus later queue key
IsKept-claimed bus queue key more (inl done) = inl done
IsKept-claimed bus queue key more (inr (inl queued)) = inr (inl queued)
IsKept-claimed bus queue key more (inr (inr (m, n, is))) = inr (inr (m, more m n, is))

-- The messages that consumers hold, with one that is claimed now.
abbrev pub held : Option ConsumedEvent → List ConsumedEvent → List ConsumedEvent
held none claimed = claimed
held (some m) claimed = m ∷ claimed

held-more :
    (o : Option ConsumedEvent) (claimed : List ConsumedEvent) (m : ConsumedEvent)
    → Memᴰ m claimed
    → Memᴰ m (held o claimed)
held-more none claimed m n = n
held-more (some x) claimed m n = Memᴰ.tail n

pub claim-AtLeastOnce :
    (topic group id : String) (bus : Bus) (claimed queue : List ConsumedEvent)
    → get (topic, group) bus.queues ≡ some queue
    → AtLeastOnce bus claimed
    → AtLeastOnce
        (with_queue topic group (take_pending bus.acknowledged group queue).1 bus)
        (held (claimed_message group id (take_pending bus.acknowledged group queue).0) claimed)
claim-AtLeastOnce topic group id bus claimed queue found kept =
    with_queue-AtLeastOnce topic group taken.1 bus claimed later kept
      (λ item m. after_claim item (kept topic group queue item found m))
      (λ t g q item m elsewhere k. IsKept-claimed bus q (item_key item g) (held-more _ claimed) k)
  where
    taken : Option ConsumedEvent × List ConsumedEvent
    taken = take_pending bus.acknowledged group queue

    later : List ConsumedEvent
    later = held (claimed_message group id taken.0) claimed

    after_claim :
        (item : PublishedEvent)
        → IsKept bus claimed queue (item_key item group)
        → IsKept bus later taken.1 (item_key item group)
    after_claim item (inl done) = inl done
    after_claim item (inr (inl (x, n, is))) =
        elim (take_pending-keeps bus.acknowledged group queue x n) [
          | inl done ↦ inl (subst (λ k. Memᴰ k bus.acknowledged) is done)
          | inr (inl now) ↦ inr (
              inr (
                claimed_by group id x,
                subst
                    (λ o. Memᴰ (claimed_by group id x) (held (claimed_message group id o) claimed))
                    (sym now) (Memᴰ.head refl),
                is,
              ))
          | inr (inr left) ↦ inr (inl (x, left, is))
        ]
    after_claim item (inr (inr (x, n, is))) = inr (inr (x, held-more _ claimed x n, is))

-- A claimed message that is settled: it, or one that is still claimed.
settled_cases :
    (before after : List ConsumedEvent) {m x : ConsumedEvent}
    → Memᴰ x (before ++ m ∷ after)
    → (x ≡ m) ⊎ Memᴰ x (before ++ after)
settled_cases before after n = elim (Memᴰ-append_cases before n) [
  | inl left ↦ inr (Memᴰ-append_left after left)
  | inr (Memᴰ.head same) ↦ inl same
  | inr (Memᴰ.tail right) ↦ inr (Memᴰ-append_right before right)
]

add_to_set-self : (key : AckKey) (set : List AckKey) → Memᴰ key (add_to_set key set)
add_to_set-self key set = elim (Bool-cases (contains set key)) [
  | inl there ↦ rw there ((contains_iff set key).0 there)
  | inr new ↦ rw new (Memᴰ.head refl)
]

add_to_set-more : (key k : AckKey) (set : List AckKey) → Memᴰ k set → Memᴰ k (add_to_set key set)
add_to_set-more key k set n = elim (Bool-cases (contains set key)) [
  | inl there ↦ rw there n
  | inr new ↦ rw new (Memᴰ.tail n)
]

pub acknowledge-AtLeastOnce :
    (bus : Bus) (before after : List ConsumedEvent) (m : ConsumedEvent)
    → AtLeastOnce bus (before ++ m ∷ after)
    → AtLeastOnce (acknowledge m bus).1 (before ++ after)
unfolding acknowledge
acknowledge-AtLeastOnce bus before after m kept topic group queue item found n =
    elim (kept topic group queue item found n) [
      | inl done ↦ inl (add_to_set-more (ack_key m m.consumer_group) _ bus.acknowledged done)
      | inr (inl queued) ↦ inr (inl queued)
      | inr (inr (x, k, is)) ↦ elim (settled_cases before after k) [
        | inl same ↦
            let key_is = sym (ap (λ y. ack_key y y.consumer_group) same) ∙ is in
            inl (
              subst (λ key. Memᴰ key (add_to_set (ack_key m m.consumer_group) bus.acknowledged))
                key_is (add_to_set-self (ack_key m m.consumer_group) bus.acknowledged))
        | inr other ↦ inr (inr (x, other, is))
      ]
    ]

-- Every item stands in the log of its topic.
abbrev pub IsFiled : Bus → Type 0
IsFiled bus =
    (topic : String) (item : PublishedEvent) → Memᴰ item (log_of bus topic) → item.topic ≡ topic

pub retry-AtLeastOnce :
    (bus : Bus) (before after queue : List ConsumedEvent) (m : ConsumedEvent)
    (event : EventEnvelope)
    → get (m.topic, m.consumer_group) bus.queues ≡ some queue
    → IsFiled bus
    → AtLeastOnce bus (before ++ m ∷ after)
    → AtLeastOnce
        (with_queue m.topic m.consumer_group (queue ++ redelivered m event ∷ []) bus)
        (before ++ after)
retry-AtLeastOnce bus before after queue m event found filed kept =
    with_queue-AtLeastOnce m.topic m.consumer_group (queue ++ redelivered m event ∷ []) bus
      (before ++ m ∷ after) (before ++ after) kept
      (λ item n. requeued item (kept m.topic m.consumer_group queue item found n))
      (λ t g q item n elsewhere k. unaffected t g q item (filed t item n) elsewhere k)
  where
    requeued :
        (item : PublishedEvent)
        → IsKept bus (before ++ m ∷ after) queue (item_key item m.consumer_group)
        → IsKept bus
            (before ++ after)
            (queue ++ redelivered m event ∷ [])
            (item_key item m.consumer_group)
    requeued item (inl done) = inl done
    requeued item (inr (inl (x, n, is))) = inr (inl (x, Memᴰ-append_left _ n, is))
    requeued item (inr (inr (x, n, is))) = elim (settled_cases before after n) [
      | inl same ↦ inr (
          inl (
            redelivered m event,
            Memᴰ-append_right queue (Memᴰ.head refl),
            sym (ap (λ y. ack_key y y.consumer_group) same) ∙ is,
          ))
      | inr other ↦ inr (inr (x, other, is))
    ]

    unaffected :
        (t g : String) (q : List ConsumedEvent) (item : PublishedEvent)
        → item.topic ≡ t
        → ((m.topic ≡ t) × (m.consumer_group ≡ g) → ⊥)
        → IsKept bus (before ++ m ∷ after) q (item_key item g)
        → IsKept bus (before ++ after) q (item_key item g)
    unaffected t g q item in_topic elsewhere (inl done) = inl done
    unaffected t g q item in_topic elsewhere (inr (inl queued)) = inr (inl queued)
    unaffected t g q item in_topic elsewhere (inr (inr (x, n, is))) =
        elim (settled_cases before after n) [
          | inl same ↦
              let key_is = sym (ap (λ y. ack_key y y.consumer_group) same) ∙ is in
              absurd (elsewhere (ap (λ k. k.topic) key_is ∙ in_topic, ap (λ k. k.group) key_is))
          | inr other ↦ inr (inr (x, other, is))
        ]
