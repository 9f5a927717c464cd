-- ===== src/Event/Bus/Delivery/Logs.antt =====
-- The logs of the bus of event_layer/bus.py: each event stands in a place of its own.
use kuber.Base.{
  ◌⊎◌, ℕ, ◌<◌, ◌≤◌, Bool-cases, String, ◌≡◌, refl, sym, ap, subst, ◌∙◌, inl, inr, some, List, [],
  ◌∷◌, ◌++◌, map, Memᴰ, ◌==◌, ==_iff, string_eq, nat_eq, if◌then◌else◌, arith,
}
use kuber.Base.Lists.{length, filter, IsDistinct, Memᴰ-append_cases, Memᴰ-map, Memᴰ-map_inv}
use kuber.Base.Dict.{Dict, get, get-put}
use kuber.Event.Bus.{PublishedEvent, Bus, log_of, log_or_empty, append_event}
use kuber.Event.Bus.Delivery.{item_key}

-- The events of a log that stand in a partition.
abbrev in_partition : ℕ → List PublishedEvent → ℕ
in_partition partition log = length (filter (λ item. item.partition == partition) log)

-- Every item stands in the log of its topic, its offset is below the length of its partition there,
-- and no two items of a log have the same key.
pub record IsLogged (logs : Dict String (List PublishedEvent)) : Type 0 where
  pub filed :
      (topic : String) (item : PublishedEvent)
      → Memᴰ item (log_or_empty (get topic logs))
      → item.topic ≡ topic
  pub below :
      (topic : String) (item : PublishedEvent)
      → Memᴰ item (log_or_empty (get topic logs))
      → item.offset < in_partition item.partition (log_or_empty (get topic logs))
  pub distinct :
      (topic group : String)
      → IsDistinct (map (λ item. item_key item group) (log_or_empty (get topic logs)))

in_partition-append :
    (partition : ℕ) (log : List PublishedEvent) (p : PublishedEvent)
    → in_partition partition log ≤ in_partition partition (log ++ p ∷ [])
in_partition-append partition [] p = ground arith
in_partition-append partition (x ∷ log) p =
    let rest = in_partition-append partition log p in
    elim (Bool-cases (x.partition == partition)) [
      | inl same ↦ rw same (omega arith)
      | inr other ↦ rw other rest
    ]

in_partition_self :
    (log : List PublishedEvent) (p : PublishedEvent)
    → in_partition p.partition log < in_partition p.partition (log ++ p ∷ [])
in_partition_self [] p = rw ((==_iff p.partition p.partition).1 refl) (omega arith)
in_partition_self (x ∷ log) p =
    let rest = in_partition_self log p in
    elim (Bool-cases (x.partition == p.partition)) [
      | inl same ↦ rw same (omega arith)
      | inr other ↦ rw other rest
    ]

module _ {A B : Type 0} (f : A → B) where
  map-IsDistinct_append :
      (xs : List A) (y : A)
      → IsDistinct (map f xs)
      → ¬ Memᴰ (f y) (map f xs)
      → IsDistinct (map f (xs ++ y ∷ []))
  map-IsDistinct_append [] y distinct new = (λ m. elim m [ ], tt)
  map-IsDistinct_append (x ∷ xs) y distinct new = (
    λ m.
        let (z, n, same) = Memᴰ-map_inv f (xs ++ y ∷ []) m in
        elim (Memᴰ-append_cases xs n) [
          | inl old ↦ distinct.0 (subst (λ k. Memᴰ k (map f xs)) (sym same) (Memᴰ-map f old))
          | inr (Memᴰ.head last) ↦ new (Memᴰ.head (ap f (sym last) ∙ sym same))
          | inr (Memᴰ.tail n) ↦ elim n [ ]
        ],
    map-IsDistinct_append xs y distinct.1 (λ m. new (Memᴰ.tail m)),
  )

-- The log that an event is added to, with its offset the length of its partition.
module _ (log : List PublishedEvent) (p : PublishedEvent)
    (counted : p.offset ≡ in_partition p.partition log)
    (below : (item : PublishedEvent)
      → Memᴰ item log
      → item.offset < in_partition item.partition log) where
  appended-below :
      (item : PublishedEvent)
      → Memᴰ item (log ++ p ∷ [])
      → item.offset < in_partition item.partition (log ++ p ∷ [])
  appended-below item m = elim (Memᴰ-append_cases log m) [
    | inl old ↦
        let before = below item old in
        let more = in_partition-append item.partition log p in omega arith
    | inr (Memᴰ.head new) ↦
        let more = in_partition_self log p in
        subst (λ x. x.offset < in_partition x.partition (log ++ p ∷ [])) (sym new)
          (subst (λ n. n < in_partition p.partition (log ++ p ∷ [])) (sym counted) more)
    | inr (Memᴰ.tail n) ↦ elim n [ ]
  ]

  appended-new : (group : String) → ¬ Memᴰ (item_key p group) (map (λ x. item_key x group) log)
  appended-new group m =
      let (item, n, same) = Memᴰ-map_inv (λ x. item_key x group) log m in
      let partition = ap (λ k. k.partition) same in
      let offset = ap (λ k. k.offset) same in
      let before : p.offset < in_partition p.partition log =
        subst (λ x. x < in_partition p.partition log) (sym offset)
          (subst (λ x. item.offset < in_partition x log) (sym partition) (below item n)) in
      omega arith

pub log-cases :
    (p : PublishedEvent) (bus : Bus) (topic : String)
    → ((p.topic ≡ topic) × (log_of (append_event p bus) topic ≡ log_of bus p.topic ++ p ∷ []))
      ⊎ (log_of (append_event p bus) topic ≡ log_of bus topic)
log-cases p bus topic =
    let found : log_of (append_event p bus) topic
        ≡ log_or_empty
            (if p.topic == topic then some (log_of bus p.topic ++ p ∷ []) else get topic bus.logs) =
      ap log_or_empty (get-put p.topic topic (log_of bus p.topic ++ p ∷ []) bus.logs) in
    elim (Bool-cases (p.topic == topic)) [
      | inl same ↦ inl ((==_iff p.topic topic).0 same, rw same at found)
      | inr other ↦ inr (rw other at found)
    ]

pub append_event-IsLogged :
    (p : PublishedEvent) (bus : Bus)
    → p.offset ≡ in_partition p.partition (log_of bus p.topic)
    → IsLogged bus.logs
    → IsLogged (append_event p bus).logs
append_event-IsLogged p bus counted l = record {
  filed = λ topic item m. elim (log-cases p bus topic) [
    | inl (same, is) ↦ elim (Memᴰ-append_cases (log_of bus p.topic) (subst (Memᴰ item) is m)) [
      | inl old ↦ l.filed p.topic item old ∙ same
      | inr (Memᴰ.head new) ↦ ap (λ x. x.topic) new ∙ same
      | inr (Memᴰ.tail n) ↦ elim n [ ]
    ]
    | inr is ↦ l.filed topic item (subst (Memᴰ item) is m)
  ];
  below = λ topic item m. elim (log-cases p bus topic) [
    | inl (same, is) ↦
        subst (λ log. item.offset < in_partition item.partition log) (sym is)
          (appended-below (log_of bus p.topic) p counted (l.below p.topic) item
            (subst (Memᴰ item) is m))
    | inr is ↦
        subst (λ log. item.offset < in_partition item.partition log) (sym is)
          (l.below topic item (subst (Memᴰ item) is m))
  ];
  distinct = λ topic group. elim (log-cases p bus topic) [
    | inl (same, is) ↦
        subst (λ log. IsDistinct (map (λ x. item_key x group) log)) (sym is)
          (map-IsDistinct_append (λ x. item_key x group) (log_of bus p.topic) p
            (l.distinct p.topic group)
            (appended-new (log_of bus p.topic) p counted (l.below p.topic) group))
    | inr is ↦
        subst (λ log. IsDistinct (map (λ x. item_key x group) log)) (sym is)
          (l.distinct topic group)
  ];
}
