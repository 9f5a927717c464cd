-- ===== src/Context/Indexer/Reuse.antt =====
-- A service that is indexed again: `index` of context_layer/indexer.py finds what it stored.
use kuber.Base.{
  String, ◌≡◌, ◌∙◌, sym, ap, ap₂, subst, inl, inr, true, false, some, ◌==◌, ==_refl, string_eq,
  Bool-cases, Option-cases,
}
use kuber.Base.Result.{Result, ok, ok-injective, raise≢ok, Result-cases, >>=-eq-ok}
use kuber.Agent.Exec.{pure, continue, bind_inv}
use kuber.Context.Models.{ServiceContext, IndexedServiceContext}
use kuber.Context.Indexer.{
  ContextStore, IndexerConfig, IndexResult, relative_names, resolve_files, read_files, indexed,
  stored, index,
}

-- What the store promises: the latest context of a service is the one put last, and to ask for it
-- changes nothing.
pub record KeepsLatest {S : Type 0} (store : ContextStore S) : Type 0 where
  pub latest-put :
      (context : IndexedServiceContext) (s after : S)
      → store.put context s ≡ (ok tt, after)
      → store.latest context.service_id after ≡ (ok (some context), after)
  pub latest-reads : (id : String) (s : S) → (store.latest id s).1 ≡ s

module _ {S : Type 0} (config : IndexerConfig S) (keeps : KeepsLatest config.store) where
  indexed-service_id :
      (service : ServiceContext) {context : IndexedServiceContext}
      → indexed config service ≡ ok context
      → context.service_id ≡ service.service_id
  unfolding indexed
  indexed-service_id service h =
      let root = config.files.resolve service.source_repository.local_path in
      let (files, a, h1) = >>=-eq-ok (resolve_files config root service.important_paths) _ h in
      let (gathered, b, h2) = >>=-eq-ok (read_files config root files _) _ h1 in
      let (names, c, h3) = >>=-eq-ok (relative_names config root files) _ h2 in
      ap (λ x. x.service_id) (sym (ok-injective h3))

  -- The rest of `index`, with the record of the files at hand.
  abbrev after_reading : ServiceContext → IndexedServiceContext → S → Result IndexResult × S
  after_reading service context w =
      continue (config.store.latest service.service_id w).0 (stored config context)
        (config.store.latest service.service_id w).1

  found_again :
      (service : ServiceContext) (context previous : IndexedServiceContext) (w : S)
      → config.store.latest service.service_id w ≡ (ok (some previous), w)
      → (previous.content_hash == context.content_hash) ≡ true
      → after_reading service context w ≡ (ok (record { context = previous; reused = true }), w)
  unfolding stored
  found_again service context previous w found same = rw (found, same)

  -- What is stored is found again.
  put_again :
      (service : ServiceContext) (context : IndexedServiceContext) (w after : S)
      (result : IndexResult)
      → context.service_id ≡ service.service_id
      → continue
          (config.store.put context w).0
          (λ _. pure (record { context = context; reused = false }))
          (config.store.put context w).1
        ≡ (ok result, after)
      → after_reading service context after
        ≡ (ok (record { context = result.context; reused = true }), after)
  put_again service context w after result same h =
      let (u, done, h') =
        bind_inv (config.store.put context w).0 (config.store.put context w).1 _
          (ap (λ r. r.0) h) in
      let left : (config.store.put context w).1 ≡ after = ap (λ r. r.1) (rw done at h) in
      let put : config.store.put context w ≡ (ok tt, after) = ap₂ (λ a b. (a, b)) done left in
      let found =
        subst (λ id. config.store.latest id after ≡ (ok (some context), after)) same
          (keeps.latest-put context w after put) in
      subst
        (λ c.
          after_reading service context after ≡ (ok (record { context = c; reused = true }), after))
        (ap (λ r. r.context) (ok-injective h'))
        (found_again service context context after found (==_refl context.content_hash))

  again :
      (service : ServiceContext) (context : IndexedServiceContext) (s after : S)
      (result : IndexResult)
      → context.service_id ≡ service.service_id
      → after_reading service context s ≡ (ok result, after)
      → after_reading service context after
        ≡ (ok (record { context = result.context; reused = true }), after)
  unfolding stored
  again service context s after result same h =
      let kept = keeps.latest-reads service.service_id s in
      elim (Result-cases (config.store.latest service.service_id s).0) [
        | inr (e, raised) ↦ absurd (raise≢ok (ap (λ r. r.0) (rw raised at h)))
        | inl (found, returned) ↦ elim (Option-cases found) [
          | inl nothing ↦
              put_again service context s after result same (rw (returned, kept, nothing) at h)
          | inr (previous, one) ↦
              elim (Bool-cases (previous.content_hash == context.content_hash)) [
                | inr differs ↦
                    put_again service context s after result same
                      (rw (returned, kept, one, differs) at h)
                | inl equal ↦
                    let stays : (ok (record { context = previous; reused = true }), s)
                        ≡ (ok result, after) =
                      rw (returned, kept, one, equal) at h in
                    let found : config.store.latest service.service_id s ≡ (ok (some previous), s) =
                      ap₂ (λ a b. (a, b)) (returned ∙ ap ok one) kept in
                    subst
                      (λ w.
                        after_reading service context w
                        ≡ (ok (record { context = result.context; reused = true }), w))
                      (ap (λ r. r.1) stays)
                      (subst
                        (λ c.
                          after_reading service context s
                          ≡ (ok (record { context = c; reused = true }), s))
                        (ap (λ r. r.context) (ok-injective (ap (λ r. r.0) stays)))
                        (found_again service context previous s found equal))
              ]
        ]
      ]

  -- Where the store finds the context that was put last for a service, and a service was
  -- indexed over files that have not changed since: indexing it again returns the same
  -- context as reused, and leaves the store as it is.
  pub index_again :
      (service : ServiceContext) (s after : S) (result : IndexResult)
      → index config service s ≡ (ok result, after)
      → index config service after
        ≡ (ok (record { context = result.context; reused = true }), after)
  unfolding index
  index_again service s after result h = elim (Result-cases (indexed config service)) [
    | inr (e, raised) ↦ absurd (raise≢ok (ap (λ r. r.0) (rw raised at h)))
    | inl (context, made) ↦
        rw made
          (again service context s after result (indexed-service_id service made) (rw made at h))
  ]
