-- ===== src/Rbac/Generator/Rules.antt =====
-- The parser reads a rule of the generator as the rule that it stands for.
use kuber.Base.{
  String, ◌≡◌, ◌≢◌, refl, ap, subst, ◌∙◌, inl, inr, Option, none, some, Bool, Bool-cases, true,
  false, not, ◌||◌, List, [], ◌∷◌, Memᴰ, map, ◌==◌, ==_iff, string_eq, arith,
}
use kuber.Base.Lists.{any}
use kuber.Base.Dict.{get}
use kuber.Base.Sort.{sorted, Memᴰ-sorted, Memᴰ-sorted_inv, at_most_text}
use kuber.Base.Text.{concat}
use kuber.Base.Result.{ok, map_result}
use kuber.Models.Policy.{PolicyRule}
use kuber.Rbac.Canonicalizer.{is_supported_resource, resources_of}
use kuber.Rbac.Canonicalizer.Supported.{eq_false}
use kuber.Rbac.Yaml.{text, sequence, get_entry, items_of, texts}
use kuber.Rbac.Parser.{text_of, is_blank, is_supported_verb, strings, check_verbs, rule}
use kuber.Rbac.Generator.{RuleKey, rule_entry}

-- The rule that a group of verbs stands for.
abbrev pub names_list : Option String → List String
names_list none = []
names_list (some name) = name ∷ []

abbrev pub rule_of : RuleKey × List String → PolicyRule
rule_of (key, verbs) = record {
  api_groups = key.api_group ∷ [];
  resources = key.resource ∷ [];
  verbs = sorted at_most_text verbs;
  resource_names = names_list key.resource_name;
}

pub record IsWritableRule (key : RuleKey) (vs : List String) : Type 0 where
  pub some_verbs : vs ≢ []
  pub verbs : (verb : String) → Memᴰ verb vs → is_supported_verb verb ≡ true
  pub resource : is_supported_resource key.api_group key.resource ≡ true
  pub name : key.resource_name ≢ some ""

supported_verb-filled : (verb : String) → is_supported_verb verb ≡ true → is_blank verb ≡ false
supported_verb-filled verb h = elim (Bool-cases (verb == "")) [
  | inr filled ↦ filled
  | inl blank ↦
      let e = (==_iff verb "").0 blank in absurd (cc (subst (λ v. is_supported_verb v ≡ true) e h))
]

blank_unsupported : (group : String) → is_supported_resource group "" ≡ false
unfolding is_supported_resource resources_of get
blank_unsupported group = ground arith

supported_resource-filled :
    (group resource : String)
    → is_supported_resource group resource ≡ true
    → is_blank resource ≡ false
supported_resource-filled group resource h = elim (Bool-cases (resource == "")) [
  | inr filled ↦ filled
  | inl blank ↦ absurd (
      cc (
        subst (λ r. is_supported_resource group r ≡ true) ((==_iff resource "").0 blank) h,
        blank_unsupported group,
      ))
]

items_of-texts : (ss : List String) → items_of (texts ss) ≡ map text ss
items_of-texts [] = refl
items_of-texts (s ∷ ss) = ap (λ t. text s ∷ t) (items_of-texts ss)

map_result-text :
    (message : String) (ss : List String) → map_result (text_of message) (map text ss) ≡ ok ss
unfolding map_result
map_result-text message [] = refl
map_result-text message (s ∷ ss) = rw (map_result-text message ss)

strings-texts :
    (ss : List String) (field : String) (allow : Bool)
    → ss ≢ []
    → (allow || not (any is_blank ss)) ≡ true
    → strings (sequence (texts ss)) field allow ≡ ok ss
unfolding strings
strings-texts [] field allow some' filled = absurd (some' refl)
strings-texts (s ∷ ss) field allow some' filled = rw (
  items_of-texts ss,
  map_result-text (concat (field ∷ " entries must be strings" ∷ [])) (s ∷ ss),
  filled,
)

check_verbs-eq-ok :
    (vs : List String)
    → ((v : String) → Memᴰ v vs → is_supported_verb v ≡ true)
    → check_verbs vs ≡ ok tt
check_verbs-eq-ok [] h = refl
check_verbs-eq-ok (v ∷ vs) h =
    rw (h v (Memᴰ.head refl)) (check_verbs-eq-ok vs (λ w m. h w (Memᴰ.tail m)))

none_blank :
    (vs : List String)
    → ((v : String) → Memᴰ v vs → is_supported_verb v ≡ true)
    → any is_blank vs ≡ false
none_blank [] h = refl
none_blank (v ∷ vs) h =
    rw (supported_verb-filled v (h v (Memᴰ.head refl)), none_blank vs (λ w m. h w (Memᴰ.tail m)))

sorted-ne-nil : (vs : List String) → vs ≢ [] → sorted at_most_text vs ≢ []
sorted-ne-nil [] h e = h refl
sorted-ne-nil (v ∷ vs) h e =
    elim (subst (Memᴰ v) e (Memᴰ-sorted at_most_text (v ∷ vs) (Memᴰ.head refl))) [ ]

pub rule-rule_entry :
    (key : RuleKey) (vs : List String)
    → IsWritableRule key vs
    → rule (rule_entry (key, vs)) ≡ ok (rule_of (key, vs))
unfolding rule rule_entry get_entry map_result
rule-rule_entry key vs w = by_name key.resource_name refl
  where
    ws : List String
    ws = sorted at_most_text vs

    supported : (v : String) → Memᴰ v ws → is_supported_verb v ≡ true
    supported v m = w.verbs v (Memᴰ-sorted_inv at_most_text vs m)

    resources_read :
        strings (sequence (texts (key.resource ∷ []))) "resources" false ≡ ok (key.resource ∷ [])
    resources_read =
        strings-texts (key.resource ∷ []) "resources" false (λ e. cc)
          (rw (supported_resource-filled key.api_group key.resource w.resource))

    verbs_read : strings (sequence (texts ws)) "verbs" false ≡ ok ws
    verbs_read =
        strings-texts ws "verbs" false (sorted-ne-nil vs w.some_verbs)
          (rw (none_blank ws supported))

    by_name :
        (name : Option String)
        → key.resource_name ≡ name
        → rule (rule_entry (key, vs)) ≡ ok (rule_of (key, vs))
    by_name none e = rw (e, resources_read, verbs_read, check_verbs-eq-ok ws supported, w.resource)
    by_name (some name) e =
        let filled : (name == "") ≡ false = eq_false (λ same. w.name (e ∙ ap some same)) in
        rw (
          e,
          filled,
          resources_read,
          verbs_read,
          filled,
          check_verbs-eq-ok ws supported,
          w.resource,
        )
