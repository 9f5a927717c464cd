-- ===== src/Rbac/Yaml.antt =====
-- The values of a YAML document, as `yaml.safe_load_all` returns them to rules_engine/rbac/parser.py
-- and as generator.py builds them: a mapping has text keys.
use kuber.Base.{ℕ, String, Bool, Option, none, some, List, [], ◌∷◌, ◌==◌, string_eq, if◌then◌else◌}

mutual
  pub data Yaml : Type 0 where
    null : Yaml
    flag : Bool → Yaml
    number : ℕ → Yaml
    text : String → Yaml
    sequence : Items → Yaml
    mapping : Entries → Yaml

  pub data Items : Type 0 where
    no_items : Items
    item : Yaml → Items → Items

  pub data Entries : Type 0 where
    no_entries : Entries
    entry : String → Yaml → Entries → Entries

-- `mapping.get(key)`
unfoldable pub get_entry : String → Entries → Option Yaml
get_entry key no_entries = none
get_entry key (entry name value rest) = if name == key then some value else get_entry key rest

-- `mapping.get(key, default)`
abbrev pub or_default : Option Yaml → Yaml → Yaml
or_default none default = default
or_default (some value) default = value

-- `mapping.get(key)`, where a missing key reads as `None`.
abbrev pub entry_of : String → Entries → Yaml
entry_of key entries = or_default (get_entry key entries) null

abbrev pub items_of : Items → List Yaml
items_of no_items = []
items_of (item value rest) = value ∷ items_of rest

abbrev pub texts : List String → Items
texts [] = no_items
texts (s ∷ ss) = item (text s) (texts ss)

abbrev pub sequence_of : List Yaml → Items
sequence_of [] = no_items
sequence_of (value ∷ values) = item value (sequence_of values)
