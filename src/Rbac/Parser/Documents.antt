-- ===== src/Rbac/Parser/Documents.antt =====
-- `parse_rbac`: the loop over the documents.
use kuber.Base.{
  String, Bool, true, false, not, ◌&&◌, ◌||◌, Option, none, some, List, [], ◌∷◌, ◌++◌, ◌==◌,
  string_eq, nat_eq, contains, if◌then◌else◌,
}
use kuber.Base.Result.{Result, ok, raise, type_error, ◌>>=◌, ◌>>◌}
use kuber.Models.Rbac.{
  ServiceAccountRef, ServiceAccountObject, RoleObject, BindingObject, ParsedRbac,
}
use kuber.Rbac.Yaml.{
  Yaml, null, flag, number, text, sequence, mapping, Items, no_items, item, Entries, no_entries,
  entry, get_entry, entry_of, or_default,
}
use kuber.Rbac.Parser.{
  refuse, demand, mapping_of, sequence_items, is_blank, filled_text, metadata, rules, is_text,
  flatten_documents,
}

-- `not namespace`
abbrev pub is_missing : Option String → Bool
is_missing none = true
is_missing (some s) = is_blank s

-- A test `value in {…}` of texts: a list or a mapping has no hash, and raises.
abbrev pub one_of : String → List String → Yaml → Result String
one_of message texts (text s) = if contains texts s then ok s else refuse message
one_of message texts (sequence items) = raise (type_error "unhashable type: 'list'")
one_of message texts (mapping m) = raise (type_error "unhashable type: 'dict'")
one_of message texts null = refuse message
one_of message texts (flag b) = refuse message
one_of message texts (number n) = refuse message

abbrev pub role_ref_message : String
role_ref_message = "binding requires a valid roleRef"

-- The kind and the name of a `roleRef`.
unfoldable pub role_ref : Yaml → Result (String × String)
role_ref value = do
  entries ← mapping_of role_ref_message value
  demand (is_text "rbac.authorization.k8s.io" (entry_of "apiGroup" entries)) role_ref_message
  kind ← one_of role_ref_message ("Role" ∷ "ClusterRole" ∷ []) (entry_of "kind" entries)
  name ← filled_text role_ref_message (entry_of "name" entries)
  ok (kind, name)

-- `not value`
abbrev pub is_false : Yaml → Bool
is_false null = true
is_false (flag b) = not b
is_false (number n) = n == 0
is_false (text s) = is_blank s
is_false (sequence no_items) = true
is_false (sequence (item value rest)) = false
is_false (mapping no_entries) = true
is_false (mapping (entry name value rest)) = false

abbrev pub text_or_none : Option String → Yaml
text_or_none none = null
text_or_none (some s) = text s

-- `subject.get("namespace") or namespace`
abbrev pub subject_namespace : Option String → Yaml → Yaml
subject_namespace namespace value = if is_false value then text_or_none namespace else value

-- The body of the loop over the subjects: a subject that is no ServiceAccount is skipped.
unfoldable pub subject : Option String → Yaml → Result (List ServiceAccountRef)
subject namespace value = do
  entries ← mapping_of "binding subjects must be mappings" value
  if not (is_text "ServiceAccount" (entry_of "kind" entries)) then ok [] else (do
    name ←
        filled_text "ServiceAccount subjects require name and namespace" (entry_of "name" entries)
    account_namespace ←
        filled_text "ServiceAccount subjects require name and namespace"
          (subject_namespace namespace (entry_of "namespace" entries))
    ok (record { name = name; namespace = account_namespace } ∷ []))

-- The loop over the subjects.
unfoldable pub subjects : Option String → List Yaml → Result (List ServiceAccountRef)
unfolding subject
subjects namespace [] = ok []
subjects namespace (value ∷ rest) = do
  first ← subject namespace value
  later ← subjects namespace rest
  ok (first ++ later)

-- The branch of a binding.
unfoldable pub binding : String → String → Option String → Entries → Result BindingObject
unfolding role_ref subjects
binding kind name namespace document = do
  demand (not (kind == "RoleBinding" && is_missing namespace))
      "RoleBinding requires metadata.namespace"
  (role_kind, role_name) ← role_ref (entry_of "roleRef" document)
  demand (not (kind == "ClusterRoleBinding" && not (role_kind == "ClusterRole")))
      "ClusterRoleBinding must reference a ClusterRole"
  raw_subjects ←
      sequence_items "binding subjects must be a list"
        (or_default (get_entry "subjects" document) (sequence no_items))
  accounts ← subjects namespace raw_subjects
  ok (record {
    name = name;
    namespace = if kind == "RoleBinding" then namespace else none;
    role_name = role_name;
    role_kind = role_kind;
    subjects = accounts;
    cluster_binding = kind == "ClusterRoleBinding";
  })

-- The branch of a role.
unfoldable pub role : String → String → Option String → Entries → Result RoleObject
unfolding rules
role kind name namespace document = do
  demand (not (kind == "Role" && is_missing namespace)) "Role requires metadata.namespace"
  role_rules ← rules (or_default (get_entry "rules" document) (sequence no_items))
  ok (record {
    name = name;
    namespace = if kind == "Role" then namespace else none;
    rules = role_rules;
    cluster_role = kind == "ClusterRole";
  })

-- The branch of a ServiceAccount.
unfoldable pub service_account : String → Option String → Result ServiceAccountObject
service_account name none = refuse "ServiceAccount requires metadata.namespace"
service_account name (some namespace) = do
  demand (not (is_blank namespace)) "ServiceAccount requires metadata.namespace"
  ok (record { name = name; namespace = namespace })

abbrev pub supported_kinds : List String
supported_kinds =
    "ServiceAccount" ∷ "Role" ∷ "ClusterRole" ∷ "RoleBinding" ∷ "ClusterRoleBinding" ∷ []

-- The branch of a supported kind.
unfoldable pub add_object :
    ParsedRbac → String → String → Option String → Entries → Result ParsedRbac
unfolding service_account role binding
add_object parsed kind name namespace document =
    if kind == "ServiceAccount"
    then (do
      account ← service_account name namespace
      ok (record parsed { service_accounts = parsed.service_accounts ++ account ∷ [] }))
    else if kind == "Role" || kind == "ClusterRole"
    then (do
      parsed_role ← role kind name namespace document
      ok (record parsed { roles = parsed.roles ++ parsed_role ∷ [] }))
    else (do
      parsed_binding ← binding kind name namespace document
      ok (record parsed { bindings = parsed.bindings ++ parsed_binding ∷ [] }))

-- The body of the loop.
unfoldable pub add_document : ParsedRbac → Entries → Result ParsedRbac
unfolding metadata add_object
add_document parsed document = do
  kind ← one_of "unsupported RBAC kind" supported_kinds (entry_of "kind" document)
  (name, namespace) ← metadata document
  add_object parsed kind name namespace document

unfoldable pub add_documents : ParsedRbac → List Entries → Result ParsedRbac
unfolding add_document
add_documents parsed [] = ok parsed
add_documents parsed (document ∷ rest) = do
  next ← add_document parsed document
  add_documents next rest

-- `parse_rbac`, of documents that are loaded.
unfoldable pub parse_rbac : Items → Result ParsedRbac
unfolding add_documents
parse_rbac documents = do
  flattened ← flatten_documents documents
  add_documents (record { service_accounts = []; roles = []; bindings = [] }) flattened

-- What `yaml.safe_load_all` read, or that it, or the file, could not be read.
unfoldable pub parse_loaded : Option Items → Result ParsedRbac
unfolding parse_rbac
parse_loaded none = refuse "invalid RBAC YAML"
parse_loaded (some documents) = parse_rbac documents
