-- ===== src/Context/Indexer/Selection.antt =====
-- The files that `_resolve_files` of context_layer/indexer.py selects.
use mathlib.Core.Bool.{false≢true}
use kuber.Base.{
  String, ◌≡◌, ◌∙◌, list_eq, refl, sym, subst, ap, ◌↔◌, inl, inr, true, List, [], ◌∷◌, ◌++◌, Memᴰ,
  ==_iff, string_eq, Bool-cases, arith,
}
use kuber.Base.Dict.Unique.{unique, unique-subset, unique-covers}
use kuber.Base.Lists.{
  filter, filter-intro, filter-elim, flat_map, Memᴰ-flat_map, Memᴰ-flat_map_inv, Memᴰ-cons_cases,
}
use kuber.Base.Sort.{sorted, tuple_leb, Memᴰ-sorted, Memᴰ-sorted_inv}
use kuber.Base.Result.{ok, ok-injective, raise≢ok, Result-cases, >>=-eq-ok}
use kuber.Context.Indexer.Selected.{
  LeadsTo, IsSelected, paths_of_iff, is_selectable_inv, is_selectable-intro, unignored_inv,
}
use kuber.Context.Indexer.{
  FilePath, FileSystem, IndexerConfig, is_relative_to, is_selectable, paths_of, select,
  resolve_files,
}

-- A path that lies below another that lies below a third lies below the third.
is_relative_to_trans :
    (root middle path : FilePath)
    → is_relative_to root middle ≡ true
    → is_relative_to middle path ≡ true
    → is_relative_to root path ≡ true
unfolding is_relative_to
is_relative_to_trans [] middle path h k = refl
is_relative_to_trans (a ∷ root) [] path h k = absurd (false≢true h)
is_relative_to_trans (a ∷ root) (b ∷ middle) [] h k = absurd (false≢true k)
is_relative_to_trans (a ∷ root) (b ∷ middle) (c ∷ path) h k =
    ground (arith, ==_iff a b, ==_iff b c, ==_iff a c, is_relative_to_trans root middle path)

is_relative_to_refl : (path : FilePath) → is_relative_to path path ≡ true
unfolding is_relative_to
is_relative_to_refl [] = refl
is_relative_to_refl (a ∷ path) = rw ((==_iff a a).1 refl, is_relative_to_refl path)

pub is_relative_to-append : (path more : FilePath) → is_relative_to path (path ++ more) ≡ true
unfolding is_relative_to
is_relative_to-append [] more = refl
is_relative_to-append (a ∷ path) more = rw ((==_iff a a).1 refl, is_relative_to-append path more)

-- `rglob` yields paths below the directory.
abbrev pub WalksDown : FileSystem → Type 0
WalksDown files =
    (directory found : FilePath)
    → Memᴰ found (files.rglob directory)
    → is_relative_to directory found ≡ true

module _ {S : Type 0} (config : IndexerConfig S) (root : FilePath) where
  -- Each declared path stays below the root.
  abbrev pub IsInside : List String → Type 0
  IsInside important_paths =
      (relative : String)
      → Memᴰ relative important_paths
      → is_relative_to root (config.files.resolve_below root relative) ≡ true

  -- The files that the declared paths lead to and that pass the tests, once for each path.
  abbrev below : String → List FilePath
  below relative =
      filter (is_selectable config) (paths_of config (config.files.resolve_below root relative))

  select-eq-ok :
      (important_paths : List String)
      → IsInside important_paths
      → select config root important_paths ≡ ok (flat_map below important_paths)
  unfolding select
  select-eq-ok [] inside = refl
  select-eq-ok (relative ∷ rest) inside =
      rw (inside relative (Memᴰ.head refl), select-eq-ok rest (λ r m. inside r (Memᴰ.tail m)))

  select_inv :
      (important_paths : List String) {selected : List FilePath}
      → select config root important_paths ≡ ok selected
      → (selected ≡ flat_map below important_paths) × IsInside important_paths
  unfolding select
  select_inv [] h = (sym (ok-injective h), λ relative m. elim m [ ])
  select_inv (relative ∷ rest) h =
      elim (Bool-cases (is_relative_to root (config.files.resolve_below root relative))) [
        | inr outside ↦ absurd (raise≢ok (rw outside at h))
        | inl inside ↦
            let (later, returned, h') = >>=-eq-ok (select config root rest) _ (rw inside at h) in
            let (same, others) = select_inv rest returned in
            (
              sym (ok-injective h') ∙ ap (λ l. below relative ++ l) same,
              λ r m. elim (Memᴰ-cons_cases m) [
                | inl first ↦
                    subst (λ x. is_relative_to root (config.files.resolve_below root x) ≡ true)
                      (sym first) inside
                | inr n ↦ others r n
              ],
            )
      ]

  abbrev files_of : List String → List FilePath
  files_of important_paths =
      sorted tuple_leb (unique (λ path. path) (flat_map below important_paths))

  pub resolve_files-eq-ok :
      (important_paths : List String)
      → config.files.is_dir root ≡ true
      → IsInside important_paths
      → resolve_files config root important_paths ≡ ok (files_of important_paths)
  unfolding resolve_files
  resolve_files-eq-ok important_paths is_dir inside =
      rw (is_dir, select-eq-ok important_paths inside)

  resolve_files_inv :
      (important_paths : List String) {files : List FilePath}
      → resolve_files config root important_paths ≡ ok files
      → (files ≡ files_of important_paths)
        × (config.files.is_dir root ≡ true)
        × IsInside important_paths
  unfolding resolve_files
  resolve_files_inv important_paths h = elim (Bool-cases (config.files.is_dir root)) [
    | inr missing ↦ absurd (raise≢ok (rw missing at h))
    | inl is_dir ↦ elim (Result-cases (select config root important_paths)) [
      | inl (selected, returned) ↦
          let (same, inside) = select_inv important_paths returned in
          (
            sym (ok-injective (rw (is_dir, returned) at h))
                ∙ ap (λ l. sorted tuple_leb (unique (λ path. path) l)) same,
            is_dir,
            inside,
          )
      | inr (e, raised) ↦ absurd (raise≢ok (rw (is_dir, raised) at h))
    ]
  ]

  -- The files of a service are returned exactly when the root is a directory and no declared
  -- path leads out of it.
  pub resolve_files_iff :
      (important_paths : List String)
      → ((files : List FilePath) × (resolve_files config root important_paths ≡ ok files))
        ↔ ((config.files.is_dir root ≡ true) × IsInside important_paths)
  resolve_files_iff important_paths = (
    λ (files, h).
        let (same, is_dir, inside) = resolve_files_inv important_paths h in (is_dir, inside),
    λ (is_dir, inside).
        (files_of important_paths, resolve_files-eq-ok important_paths is_dir inside),
  )

  -- Where the files of a service are returned, a path is one of them exactly when a declared
  -- path of the service leads to it, and it is a file with no ignored part and not larger
  -- than the limit.
  pub resolve_files_exact :
      (important_paths : List String) (files : List FilePath) (path : FilePath)
      → resolve_files config root important_paths ≡ ok files
      → Memᴰ path files ↔ IsSelected config root important_paths path
  resolve_files_exact important_paths files path h =
      let same = (resolve_files_inv important_paths h).0 in
      let listed = flat_map below important_paths in
      (
        λ m.
            let (relative, declared, n) = Memᴰ-flat_map_inv below important_paths (
              unique-subset (λ p. p) listed
                (Memᴰ-sorted_inv tuple_leb (unique (λ p. p) listed) (subst (Memᴰ path) same m))) in
            let (found, selectable) = filter-elim (is_selectable config) _ n in
            let (is_file, clean, small) = is_selectable_inv config root path selectable in
            record {
              relative = relative;
              declared = declared;
              found =
                  (paths_of_iff config root (config.files.resolve_below root relative) path).0
                    found;
              is_file = is_file;
              unignored = λ part. unignored_inv config root path part clean;
              small = small;
            },
        λ s.
            let (y, n, e) =
              unique-covers (λ p. p) listed
                (Memᴰ-flat_map below s.declared (
                  filter-intro (is_selectable config)
                    ((paths_of_iff config root (config.files.resolve_below root s.relative) path).1
                      s.found)
                    (is_selectable-intro config root important_paths path s))) in
            subst (Memᴰ path) (sym same)
              (Memᴰ-sorted tuple_leb _ (subst (λ p. Memᴰ p (unique (λ q. q) listed)) (sym e) n)),
      )

  -- Where walking a directory yields paths below it, and the files of a service are returned,
  -- each of them lies below the root of the repository.
  pub resolve_files-contained :
      (important_paths : List String) (files : List FilePath) (path : FilePath)
      → WalksDown config.files
      → resolve_files config root important_paths ≡ ok files
      → Memᴰ path files
      → is_relative_to root path ≡ true
  resolve_files-contained important_paths files path walks h m =
      let s = (resolve_files_exact important_paths files path h).0 m in
      let (same, is_dir, inside) = resolve_files_inv important_paths h in
      let candidate = config.files.resolve_below root s.relative in
      is_relative_to_trans root candidate path (inside s.relative s.declared)
        (reached candidate s.found)
    where
      reached :
          (candidate : FilePath)
          → LeadsTo config.files candidate path
          → is_relative_to candidate path ≡ true
      reached candidate found = elim found [
        | inl (_, m) ↦ walks candidate path m
        | inr (_, same) ↦ rw same (is_relative_to_refl candidate)
      ]
