-- ===== src/Rbac/Parser.antt =====
-- rules_engine/rbac/parser.py, from the loaded YAML documents on. Its error classes are subclasses
-- of ValueError.
pub mod Documents
pub mod Rules
pub mod Objects
pub mod Valid
use kuber.Base.{
  String, Bool, true, false, not, ◌&&◌, ◌||◌, Option, none, some, List, [], ◌∷◌, ◌++◌, ◌==◌,
  string_eq, contains, if◌then◌else◌,
}
use kuber.Base.Lists.{all, any}
use kuber.Base.Text.{concat, or_else}
use kuber.Base.Result.{Result, ok, raise, value_error, ◌>>=◌, ◌>>◌, map_result, map_ok}
use kuber.Models.Policy.{PolicyRule}
use kuber.Models.Rbac.{
  ServiceAccountRef, ServiceAccountObject, RoleObject, BindingObject, ParsedRbac,
}
use kuber.Rbac.Canonicalizer.{supported_verbs, is_supported_resource}
use kuber.Rbac.Yaml.{
  Yaml, null, flag, number, text, sequence, mapping, Items, no_items, item, Entries, no_entries,
  entry, get_entry, entry_of, or_default, items_of,
}

-- `raise RbacParseError(message)`
abbrev pub refuse : {A : Type 0} → String → Result A
refuse message = raise (value_error message)

-- `if not passes: raise RbacParseError(message)`
abbrev pub demand : Bool → String → Result (Unit {0})
demand true message = ok tt
demand false message = refuse message

-- A text, or the error.
abbrev pub text_of : String → Yaml → Result String
text_of message (text s) = ok s
text_of message value = refuse message

abbrev pub mapping_of : String → Yaml → Result Entries
mapping_of message (mapping entries) = ok entries
mapping_of message value = refuse message

abbrev pub sequence_items : String → Yaml → Result (List Yaml)
sequence_items message (sequence items) = ok (items_of items)
sequence_items message value = refuse message

abbrev pub is_blank : String → Bool
is_blank s = s == ""

abbrev pub some_items : String → List Yaml → Result (Unit {0})
some_items message [] = refuse message
some_items message (value ∷ values) = ok tt

-- `_strings`
unfoldable pub strings : Yaml → String → Bool → Result (List String)
strings value field allow_empty_string = do
  items ← sequence_items (concat (field ∷ " must be a non-empty list" ∷ [])) value
  some_items (concat (field ∷ " must be a non-empty list" ∷ [])) items
  values ← map_result (text_of (concat (field ∷ " entries must be strings" ∷ []))) items
  demand (allow_empty_string || not (any is_blank values))
      (concat (field ∷ " entries must not be empty" ∷ []))
  ok values

-- A text that is not empty, or the error.
abbrev pub filled_text : String → Yaml → Result String
filled_text message value = do s ← text_of message value; demand (not (is_blank s)) message; ok s

abbrev pub optional_text : String → Yaml → Result (Option String)
optional_text message null = ok none
optional_text message (text s) = ok (some s)
optional_text message value = refuse message

-- `_metadata`
unfoldable pub metadata : Entries → Result (String × Option String)
metadata document = do
  entries ← mapping_of "every RBAC object requires metadata.name" (entry_of "metadata" document)
  name ← filled_text "every RBAC object requires metadata.name" (entry_of "name" entries)
  namespace ← optional_text "metadata.namespace must be a string" (entry_of "namespace" entries)
  ok (name, namespace)

abbrev pub is_supported_verb : String → Bool
is_supported_verb verb = verb == "*" || contains supported_verbs verb

-- `unsupported verb`, for the first verb that is not supported.
abbrev pub check_verbs : List String → Result (Unit {0})
check_verbs [] = ok tt
check_verbs (verb ∷ verbs) = do
  demand (is_supported_verb verb) (concat ("unsupported verb: " ∷ verb ∷ []))
  check_verbs verbs

abbrev pub check_resources : String → List String → Result (Unit {0})
check_resources group [] = ok tt
check_resources group (resource ∷ resources) = do
  demand (is_supported_resource group resource)
      (concat ("unsupported resource: " ∷ or_else group "core" ∷ "/" ∷ resource ∷ []))
  check_resources group resources

abbrev pub check_groups : List String → List String → Result (Unit {0})
check_groups [] resources = ok tt
check_groups (group ∷ groups) resources = do
  check_resources group resources
  check_groups groups resources

-- The body of the loop of `_rules`.
unfoldable pub rule : Yaml → Result PolicyRule
unfolding strings
rule raw = do
  entries ← mapping_of "each rule must be a mapping" raw
  api_groups ←
      strings (or_default (get_entry "apiGroups" entries) (sequence (item (text "") no_items)))
        "apiGroups" true
  resources ← strings (entry_of "resources" entries) "resources" false
  verbs ← strings (entry_of "verbs" entries) "verbs" false
  raw_names ←
      sequence_items "resourceNames must be a list"
        (or_default (get_entry "resourceNames" entries) (sequence no_items))
  resource_names ←
      map_result (filled_text "resourceNames entries must be non-empty strings") raw_names
  check_verbs verbs
  check_groups api_groups resources
  ok (record {
    api_groups = api_groups;
    resources = resources;
    verbs = verbs;
    resource_names = resource_names;
  })

-- `_rules`
unfoldable pub rules : Yaml → Result (List PolicyRule)
unfolding rule map_result
rules value = do items ← sequence_items "rules must be a list" value; map_result rule items

abbrev pub is_text : String → Yaml → Bool
is_text s (text t) = t == s
is_text s value = false

unfoldable mutual
  -- `_flatten_documents`
  pub flatten_documents : Items → Result (List Entries)
  flatten_documents no_items = ok []
  flatten_documents (item document rest) = do
    first ← flatten_document document
    later ← flatten_documents rest
    ok (first ++ later)

  pub flatten_document : Yaml → Result (List Entries)
  flatten_document null = ok []
  flatten_document (mapping document) =
      let nested = flatten_list document in
      if is_text "List" (entry_of "kind" document) then nested else ok (document ∷ [])
  flatten_document (flag b) = refuse "YAML documents must be mappings"
  flatten_document (number n) = refuse "YAML documents must be mappings"
  flatten_document (text s) = refuse "YAML documents must be mappings"
  flatten_document (sequence items) = refuse "YAML documents must be mappings"

  -- The entry `items` of a List.
  pub flatten_list : Entries → Result (List Entries)
  flatten_list no_entries = refuse "List.items must be a list"
  flatten_list (entry name value rest) =
      let here = flatten_items value in
      let later = flatten_list rest in if name == "items" then here else later

  pub flatten_items : Yaml → Result (List Entries)
  flatten_items (sequence items) = flatten_documents items
  flatten_items null = refuse "List.items must be a list"
  flatten_items (flag b) = refuse "List.items must be a list"
  flatten_items (number n) = refuse "List.items must be a list"
  flatten_items (text s) = refuse "List.items must be a list"
  flatten_items (mapping m) = refuse "List.items must be a list"
