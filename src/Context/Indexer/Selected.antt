-- ===== src/Context/Indexer/Selected.antt =====
-- What `_resolve_files` of context_layer/indexer.py selects a file for, and its tests on a path.
use mathlib.Core.Bool.{false≢true}
use kuber.Base.{
  String, ◌≡◌, ◌∙◌, list_eq, sym, ◌↔◌, inl, inr, ◌⊎◌, ◌≤◌, true, false, contains, contains_iff,
  List, [], ◌∷◌, Memᴰ, string_eq, Bool-cases, arith,
}
use kuber.Base.Lists.{any, any-intro, any-elim, Memᴰ-cons_cases}
use kuber.Context.Indexer.{
  FilePath, FileSystem, IndexerConfig, ignored_parts, is_selectable, paths_of,
}

-- A declared path leads to a path: it names a directory that the path is found in, or it names the
-- path itself, which is no directory.
abbrev pub LeadsTo : FileSystem → FilePath → FilePath → Type 0
LeadsTo files candidate path =
    ((files.is_dir candidate ≡ true) × Memᴰ path (files.rglob candidate))
    ⊎ ((files.is_dir candidate ≡ false) × (path ≡ candidate))

-- The path is one that a declared path of the service leads to; it is a file, no part of it is the
-- name of a directory of a tool, and it is not larger than the limit.
pub record IsSelected {S : Type 0} (config : IndexerConfig S) (root : FilePath)
    (important_paths : List String) (path : FilePath) : Type 0 where
  pub relative : String
  pub declared : Memᴰ relative important_paths
  pub found : LeadsTo config.files (config.files.resolve_below root relative) path
  pub is_file : config.files.is_file path ≡ true
  pub unignored :
      (part : String)
      → Memᴰ part path
      → ¬ Memᴰ part
          (".git" ∷ ".mypy_cache" ∷ ".pytest_cache" ∷ ".ruff_cache" ∷ ".venv" ∷ "__pycache__" ∷ [])
  pub small : config.files.size path ≤ config.maximum_file_bytes

module _ {S : Type 0} (config : IndexerConfig S) (root : FilePath) where
  pub paths_of_iff :
      (candidate path : FilePath)
      → Memᴰ path (paths_of config candidate) ↔ LeadsTo config.files candidate path
  paths_of_iff candidate path = elim (Bool-cases (config.files.is_dir candidate)) [
    | inl directory ↦ (
      λ m. inl (directory, rw directory at m),
      λ found. elim found [
        | inl (_, m) ↦ rw directory m
        | inr (single, _) ↦ absurd (false≢true (sym single ∙ directory))
      ],
    )
    | inr single ↦ (
      λ m. elim (Memᴰ-cons_cases (rw single at m)) [
        | inl same ↦ inr (single, same)
        | inr n ↦ elim n [ ]
      ],
      λ found. elim found [
        | inl (directory, _) ↦ absurd (false≢true (sym single ∙ directory))
        | inr (_, same) ↦ rw single (Memᴰ.head same)
      ],
    )
  ]

  pub is_selectable_inv :
      (path : FilePath)
      → is_selectable config path ≡ true
      → (config.files.is_file path ≡ true)
        × (any (contains ignored_parts) path ≡ false)
        × (config.files.size path ≤ config.maximum_file_bytes)
  is_selectable_inv path h = (ground arith, ground arith, ground arith)

  pub is_selectable-intro :
      (important_paths : List String) (path : FilePath)
      → IsSelected config root important_paths path
      → is_selectable config path ≡ true
  is_selectable-intro important_paths path s =
      let is_file = s.is_file in
      let small = s.small in
      elim (Bool-cases (any (contains ignored_parts) path)) [
        | inr clean ↦ ground arith
        | inl ignored ↦
            let (part, m, k) = any-elim (contains ignored_parts) path ignored in
            absurd (s.unignored part m ((contains_iff ignored_parts part).0 k))
      ]

  pub unignored_inv :
      (path : FilePath) (part : String)
      → any (contains ignored_parts) path ≡ false
      → Memᴰ part path
      → ¬ Memᴰ part ignored_parts
  unignored_inv path part clean m n =
      false≢true
        (sym clean ∙ any-intro (contains ignored_parts) m ((contains_iff ignored_parts part).1 n))
