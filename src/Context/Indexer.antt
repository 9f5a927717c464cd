-- ===== src/Context/Indexer.antt =====
-- context_layer/indexer.py: the files that belong to a service, and what is kept of them.
pub mod Selected
pub mod Selection
pub mod Reuse
use kuber.Base.{
  ℕ, ◌+◌, leb, String, Bool, true, false, not, ◌&&◌, ◌||◌, Option, none, some, List, [], ◌∷◌, ◌++◌,
  map, ◌==◌, string_eq, list_eq, contains, if◌then◌else◌,
}
use kuber.Base.Dict.Unique.{unique}
use kuber.Base.Lists.{any, filter}
use kuber.Base.Sort.{sorted, tuple_leb, at_most_text}
use kuber.Base.Text.{concat, join}
use kuber.Base.Result.{Result, ok, raise, value_error, other_error, ◌>>=◌, ◌>>◌, map_ok}
use kuber.Agent.Exec as Exec
use kuber.Agent.Exec.{Exec, lift}
use kuber.Texts.{suffix, is_small, has_word, take, text_length}
use kuber.Context.Models.{ServiceContext, IndexedServiceContext}

-- The names of an absolute path, below the root of the file system.
abbrev pub FilePath : Type 0
FilePath = List String

-- The files while a service is indexed. A path of the service is resolved below the root, links
-- followed. Bytes are characters.
pub record FileSystem : Type 0 where
  pub resolve : String → FilePath
  pub resolve_below : FilePath → String → FilePath
  pub is_dir : FilePath → Bool
  pub is_file : FilePath → Bool
  pub rglob : FilePath → List FilePath
  pub size : FilePath → ℕ
  pub read_bytes : FilePath → Result String

-- The protocol `ContextStore`, as far as the indexer uses it.
pub record ContextStore (S : Type 0) : Type 0 where
  pub latest : String → Exec S (Option IndexedServiceContext)
  pub put : IndexedServiceContext → Exec S (Unit {0})

-- The indexer's parts; `sha256` is the hexadecimal digest, `encode` a text's bytes.
pub record IndexerConfig (S : Type 0) : Type 0 where
  pub files : FileSystem
  pub store : ContextStore S
  pub maximum_file_bytes : ℕ
  pub sha256 : String → String
  pub encode : String → String

abbrev pub ignored_parts : List String
ignored_parts =
    ".git" ∷ ".mypy_cache" ∷ ".pytest_cache" ∷ ".ruff_cache" ∷ ".venv" ∷ "__pycache__" ∷ []

abbrev pub entry_names : List String
entry_names = "main.py" ∷ "app.py" ∷ "server.py" ∷ "Dockerfile" ∷ "pyproject.toml" ∷ []

-- `_LANGUAGES.get(suffix.lower())`
abbrev pub language_of : String → Option String
language_of end =
    if is_small ".py" end
    then some "Python"
    else if is_small ".go" end
    then some "Go"
    else if is_small ".js" end
    then some "JavaScript"
    else if is_small ".ts" end
    then some "TypeScript"
    else if is_small ".java" end
    then some "Java"
    else if is_small ".yaml" end || is_small ".yml" end
    then some "YAML"
    else none

-- `path.is_relative_to(root)`
unfoldable pub is_relative_to : FilePath → FilePath → Bool
is_relative_to [] path = true
is_relative_to (part ∷ root) [] = false
is_relative_to (part ∷ root) (p ∷ path) = part == p && is_relative_to root path

-- The parts of `path.relative_to(root)`.
unfoldable pub relative_to : FilePath → FilePath → Result FilePath
relative_to [] path = ok path
relative_to (part ∷ root) [] = raise (value_error "not in the subpath")
relative_to (part ∷ root) (p ∷ path) =
    let rest = relative_to root path in
    if part == p then rest else raise (value_error "not in the subpath")

abbrev pub as_posix : FilePath → String
as_posix [] = "."
as_posix (part ∷ parts) = join "/" (part ∷ parts)

-- `path.name`
abbrev pub name_of : FilePath → String
name_of [] = ""
name_of (part ∷ []) = part
name_of (part ∷ next ∷ parts) = name_of (next ∷ parts)

-- What the loop over the files has gathered.
pub record Gathered : Type 0 where
  pub digested : String
  pub bytes_loaded : ℕ
  pub languages : List String
  pub usage : List String
  pub entry_points : List String

abbrev pub optional_item : Option String → List String
optional_item none = []
optional_item (some s) = s ∷ []

abbrev pub item_if : Bool → String → List String
item_if test s = if test then s ∷ [] else []

abbrev pub uses_kubernetes : String → Bool
uses_kubernetes content =
    has_word "kubernetes" content || has_word "kubectl" content || has_word "client-go" content

abbrev pub reference : String → String → String
reference service_id content_hash =
    concat ("context://" ∷ service_id ∷ "/" ∷ take 16 content_hash ∷ [])

-- `sorted(set(texts))`
unfoldable pub sorted_set : List String → List String
unfolding sorted unique
sorted_set texts = sorted at_most_text (unique (λ s. s) texts)

-- `IndexResult`
pub record IndexResult : Type 0 where
  pub context : IndexedServiceContext
  pub reused : Bool

module _ {S : Type 0} (config : IndexerConfig S) where
  -- The tests on a path in the inner loop of `_resolve_files`.
  abbrev pub is_selectable : FilePath → Bool
  is_selectable path =
      config.files.is_file path
      && not (any (contains ignored_parts) path)
      && leb (config.files.size path) config.maximum_file_bytes

  abbrev pub paths_of : FilePath → List FilePath
  paths_of candidate =
      if config.files.is_dir candidate then config.files.rglob candidate else candidate ∷ []

  -- The outer loop of `_resolve_files`.
  unfoldable pub select : FilePath → List String → Result (List FilePath)
  unfolding is_relative_to
  select root [] = ok []
  select root (relative ∷ rest) =
      let candidate = config.files.resolve_below root relative in
      if not (is_relative_to root candidate)
      then raise (value_error (concat ("important path escapes repository root: " ∷ relative ∷ [])))
      else (do
        selected ← select root rest
        ok (filter is_selectable (paths_of candidate) ++ selected))

  -- `_resolve_files`
  unfoldable pub resolve_files : FilePath → List String → Result (List FilePath)
  unfolding select sorted unique tuple_leb
  resolve_files root important_paths =
      if not (config.files.is_dir root)
      then raise (
          other_error "FileNotFoundError"
            (concat ("service repository does not exist: /" ∷ join "/" root ∷ [])))
      else map_ok (λ selected. sorted tuple_leb (unique (λ path. path) selected))
          (select root important_paths)

  -- The body of the loop over the files.
  unfoldable pub read_file : FilePath → FilePath → Gathered → Result Gathered
  unfolding relative_to suffix is_small has_word text_length
  read_file root path gathered = do
    parts ← relative_to root path
    content ← config.files.read_bytes path
    let relative = as_posix parts
    ok (record {
      digested = concat (gathered.digested ∷ config.encode relative ∷ "\0" ∷ content ∷ []);
      bytes_loaded = gathered.bytes_loaded + text_length content;
      languages = gathered.languages ++ optional_item (language_of (suffix (name_of path)));
      usage = gathered.usage ++ item_if (uses_kubernetes content) relative;
      entry_points =
          gathered.entry_points ++ item_if (contains entry_names (name_of path)) relative;
    })

  unfoldable pub read_files : FilePath → List FilePath → Gathered → Result Gathered
  unfolding read_file
  read_files root [] gathered = ok gathered
  read_files root (path ∷ rest) gathered = do
    more ← read_file root path gathered
    read_files root rest more

  unfoldable pub relative_names : FilePath → List FilePath → Result (List String)
  unfolding relative_to
  relative_names root [] = ok []
  relative_names root (path ∷ rest) = do
    parts ← relative_to root path
    names ← relative_names root rest
    ok (as_posix parts ∷ names)

  -- The record of the service's files.
  unfoldable pub indexed : ServiceContext → Result IndexedServiceContext
  unfolding resolve_files read_files relative_names sorted_set take sorted
  indexed service = do
    let root = config.files.resolve service.source_repository.local_path
    files ← resolve_files root service.important_paths
    gathered ← read_files root files (record {
      digested = "";
      bytes_loaded = 0;
      languages = [];
      usage = service.kubernetes_usage;
      entry_points = [];
    })
    names ← relative_names root files
    let content_hash = config.sha256 gathered.digested
    ok (record {
      context_ref = reference service.service_id content_hash;
      service_id = service.service_id;
      content_hash = content_hash;
      files = names;
      bytes_loaded = gathered.bytes_loaded;
      languages = sorted_set gathered.languages;
      kubernetes_usage = sorted_set gathered.usage;
      dependencies = sorted_set service.dependencies;
      entry_points = sorted at_most_text gathered.entry_points;
    })

  -- A context is put in the store where the latest one has another hash.
  unfoldable pub stored : IndexedServiceContext → Option IndexedServiceContext → Exec S IndexResult
  stored context none =
      Exec.◌>>◌ (config.store.put context)
        (Exec.pure (record { context = context; reused = false }))
  stored context (some previous) =
      if previous.content_hash == context.content_hash
      then Exec.pure (record { context = previous; reused = true })
      else Exec.◌>>◌ (config.store.put context)
          (Exec.pure (record { context = context; reused = false }))

  -- `index`
  unfoldable pub index : ServiceContext → Exec S IndexResult
  index service = Exec.◌>>=◌ (lift (indexed service)) (λ context.
      Exec.◌>>=◌ (config.store.latest service.service_id) (λ previous. stored context previous))
