-- ===== src/Event/Bus/Delivery.antt =====
-- At-least-once delivery: no published event of a subscribed group is lost.
pub mod Steps
pub mod Logs
pub mod Carried
pub mod Claims
use mathlib.Core.Bool.{false≢true}
use kuber.Base.{
  Bool-cases, Option-cases, bool_ext, ℕ, String, ◌≡◌, ◌≢◌, refl, sym, ap, subst, ◌∙◌, ◌⊎◌, inl, inr,
  Bool, true, false, Option, none, some, List, [], ◌∷◌, ◌++◌, map, Memᴰ, ◌==◌, ==_iff, ==_refl,
  string_eq, pair_eq, contains, contains_iff, if◌then◌else◌, arith,
}
use kuber.Base.Lists.{
  Memᴰ-append_cases, Memᴰ-append_left, Memᴰ-append_right, Memᴰ-cons_cases, Memᴰ-map, Memᴰ-map_inv,
}
use kuber.Base.Dict.{Dict, get, put, get-put}
use kuber.Event.Bus.{
  PublishedEvent, ConsumedEvent, AckKey, ack_key_eq, Bus, log_of, log_or_empty, consumed, ack_key,
  append_event, put_on_queues, subscribed, take_pending, claimed_by, claimed_message,
}
use kuber.Event.Bus.Settle.{add_to_set, redelivered}

-- The key under which a group acknowledges an item of a log.
abbrev pub item_key : PublishedEvent → String → AckKey
item_key item group = ack_key (consumed item group "") group

-- The group has acknowledged the item, or has a message for it queued or claimed.
abbrev pub IsKept : Bus → List ConsumedEvent → List ConsumedEvent → AckKey → Type 0
IsKept bus claimed queue key =
    Memᴰ key bus.acknowledged
    ⊎ ((m : ConsumedEvent) × Memᴰ m queue × (ack_key m key.group ≡ key))
    ⊎ ((m : ConsumedEvent) × Memᴰ m claimed × (ack_key m m.consumer_group ≡ key))

-- So for every item of a topic and every group that has subscribed to it.
abbrev pub AtLeastOnce : Bus → List ConsumedEvent → Type 0
AtLeastOnce bus claimed =
    (topic group : String) (queue : List ConsumedEvent) (item : PublishedEvent)
    → get (topic, group) bus.queues ≡ some queue
    → Memᴰ item (log_of bus topic)
    → IsKept bus claimed queue (item_key item group)

pub some-injective : {A : Type 0} {a b : A} → some a ≡ some b → a ≡ b
some-injective h = cc

pub pair_inj : {A B : Type 0} {a c : A} {b d : B} → Path (A × B) (a, b) (c, d) → (a ≡ c) × (b ≡ d)
pair_inj h = (λ i. (h i).0, λ i. (h i).1)

-- A message that stays on the queue.
pub IsKept-on :
    (bus : Bus) (claimed : List ConsumedEvent) {queue after : List ConsumedEvent} (key : AckKey)
    → ((m : ConsumedEvent) → Memᴰ m queue → Memᴰ m after)
    → IsKept bus claimed queue key
    → IsKept bus claimed after key
IsKept-on bus claimed key more (inl done) = inl done
IsKept-on bus claimed key more (inr (inl (m, n, is))) = inr (inl (m, more m n, is))
IsKept-on bus claimed key more (inr (inr held)) = inr (inr held)

-- The queue of a group after `publish`.
pub put_on_queues-get :
    (topic : String) (message : ConsumedEvent)
    (queues : Dict (String × String) (List ConsumedEvent)) (t g : String)
    (after : List ConsumedEvent)
    → get (t, g) (put_on_queues topic message queues) ≡ some after
    → (queue : List ConsumedEvent) × (get (t, g) queues ≡ some queue)
      × (after ≡ (if t == topic then queue ++ message ∷ [] else queue))
unfolding put_on_queues get
put_on_queues-get topic message [] t g after h = cc
put_on_queues-get topic message (((u, f), queue) ∷ rest) t g after h =
    elim (Bool-cases (◌==◌ {A = String × String} (u, f) (t, g))) [
      | inl here ↦
          let same : u ≡ t = (pair_inj ((==_iff {A = String × String} (u, f) (t, g)).0 here)).0 in
          let is : (if u == topic then queue ++ message ∷ [] else queue) ≡ after =
            some-injective (rw here at h) in
          (
            queue,
            rw here refl,
            sym is ∙ ap (λ x. if x == topic then queue ++ message ∷ [] else queue) same,
          )
      | inr there ↦
          let (before, found, is) =
            put_on_queues-get topic message rest t g after (rw there at h) in
          (before, rw there found, is)
    ]

-- Publishing keeps what is kept, and the new event is on every queue of its topic.
pub publish-AtLeastOnce :
    (p : PublishedEvent) (bus : Bus) (claimed : List ConsumedEvent)
    → AtLeastOnce bus claimed
    → AtLeastOnce (append_event p bus) claimed
publish-AtLeastOnce p bus claimed kept topic group queue item found m =
    let (before, found_before, is) =
      put_on_queues-get p.topic (consumed p "" "") bus.queues topic group queue found in
    let found_log : log_of (append_event p bus) topic
        ≡ log_or_empty
            (if p.topic == topic then some (log_of bus p.topic ++ p ∷ []) else get topic bus.logs) =
      ap log_or_empty (get-put p.topic topic (log_of bus p.topic ++ p ∷ []) bus.logs) in
    elim (Bool-cases (p.topic == topic)) [
      | inl same ↦
          let same_topic = (==_iff p.topic topic).0 same in
          let on_queue : queue ≡ before ++ consumed p "" "" ∷ [] =
            rw ((==_iff topic p.topic).1 (sym same_topic)) at is in
          let in_log : Memᴰ item (log_of bus p.topic ++ p ∷ []) =
            subst (Memᴰ item) (rw same at found_log) m in
          elim (Memᴰ-append_cases (log_of bus p.topic) in_log) [
            | inl old ↦
                subst (λ q. IsKept bus claimed q (item_key item group)) (sym on_queue)
                  (IsKept-on bus claimed (item_key item group) (λ x n. Memᴰ-append_left _ n)
                    (kept topic group before item found_before
                      (subst (λ t. Memᴰ item (log_of bus t)) same_topic old)))
            | inr (Memᴰ.head new) ↦ inr (
                inl (
                  consumed p "" "",
                  subst (Memᴰ (consumed p "" "")) (sym on_queue)
                      (Memᴰ-append_right before (Memᴰ.head refl)),
                  ap (λ x. item_key x group) (sym new),
                ))
            | inr (Memᴰ.tail n) ↦ elim n [ ]
          ]
      | inr other ↦
          let not_here : (topic == p.topic) ≡ false =
            bool_ext _ _
              (λ h. absurd (
                false≢true
                  (sym other ∙ (==_iff p.topic topic).1 (sym ((==_iff topic p.topic).0 h)))))
              (λ h. absurd (false≢true h)) in
          let on_queue : queue ≡ before = rw not_here at is in
          let in_log : Memᴰ item (log_of bus topic) = subst (Memᴰ item) (rw other at found_log) m in
          subst (λ q. IsKept bus claimed q (item_key item group)) (sym on_queue)
            (kept topic group before item found_before in_log)
    ]

pub take_pending-keeps :
    (acknowledged : List AckKey) (group : String) (queue : List ConsumedEvent) (m : ConsumedEvent)
    → Memᴰ m queue
    → Memᴰ (ack_key m group) acknowledged
      ⊎ ((take_pending acknowledged group queue).0 ≡ some m)
      ⊎ Memᴰ m (take_pending acknowledged group queue).1
unfolding take_pending
take_pending-keeps acknowledged group [] m n = elim n [ ]
take_pending-keeps acknowledged group (x ∷ xs) m n =
    elim (Bool-cases (contains acknowledged (ack_key x group))) [
      | inl done ↦ rw done (elim (Memᴰ-cons_cases n) [
        | inl here ↦ inl (
            subst (λ y. Memᴰ (ack_key y group) acknowledged) (sym here)
              ((contains_iff acknowledged (ack_key x group)).0 done))
        | inr there ↦ take_pending-keeps acknowledged group xs m there
      ])
      | inr pending ↦ rw pending (elim (Memᴰ-cons_cases n) [
        | inl here ↦ inr (inl (ap some (sym here)))
        | inr there ↦ inr (inr there)
      ])
    ]

-- A group that subscribes gets the whole log.
pub subscribe-AtLeastOnce :
    (topic group : String) (bus : Bus) (claimed : List ConsumedEvent)
    → AtLeastOnce bus claimed
    → AtLeastOnce (subscribed topic group (get (topic, group) bus.queues) bus) claimed
subscribe-AtLeastOnce topic group bus claimed kept t g queue item =
    elim (Option-cases (get (topic, group) bus.queues)) [
      | inl absent ↦ rw absent (λ found m.
          elim (Bool-cases (◌==◌ {A = String × String} (topic, group) (t, g))) [
            | inl here ↦
                let (same_topic, same_group) =
                  pair_inj ((==_iff {A = String × String} (topic, group) (t, g)).0 here) in
                let is : map (λ x. consumed x group "") (log_of bus topic) ≡ queue =
                  some-injective (
                    rw here at (
                      sym (
                        get-put (topic, group) (t, g)
                          (map (λ x. consumed x group "") (log_of bus topic)) bus.queues)
                      ∙ found)) in
                inr (
                  inl (
                    consumed item group "",
                    subst (Memᴰ (consumed item group "")) is (
                        Memᴰ-map (λ x. consumed x group "")
                          (subst (λ u. Memᴰ item (log_of bus u)) (sym same_topic) m)),
                    refl,
                  ))
            | inr there ↦
                kept t g queue item
                  (rw there at (
                    sym (
                      get-put (topic, group) (t, g)
                        (map (λ x. consumed x group "") (log_of bus topic)) bus.queues)
                    ∙ found))
                  m
          ])
      | inr (present, is) ↦ rw is (λ found m. kept t g queue item found m)
    ]
