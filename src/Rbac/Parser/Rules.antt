-- ===== src/Rbac/Parser/Rules.antt =====
-- `_strings` and `_rules`: what a rule that is returned keeps to.
use kuber.Base.{
  String, ◌≡◌, ◌≢◌, refl, sym, subst, inl, inr, ◌⊎◌, Bool, true, false, not, ◌||◌, Bool-cases, List,
  [], ◌∷◌, Memᴰ, ◌==◌, string_eq, ==_iff, contains_iff, arith,
}
use kuber.Base.Lists.{any, Memᴰ-cons_cases}
use kuber.Base.Result.{Result, ok, ok-injective, raise≢ok, >>=-eq-ok, map_result}
use kuber.Models.Policy.{PolicyRule}
use kuber.Rbac.Canonicalizer.{supported_verbs, is_supported_resource}
use kuber.Rbac.Yaml.{Yaml, item, no_items, text, sequence, get_entry, entry_of, or_default}
use kuber.Rbac.Parser.{
  demand, text_of, mapping_of, sequence_items, is_blank, some_items, strings, filled_text,
  is_supported_verb, check_verbs, check_resources, check_groups, rule, rules,
}

pub record IsValidRule (r : PolicyRule) : Type 0 where
  pub some_groups : r.api_groups ≢ []
  pub some_resources : r.resources ≢ []
  pub some_verbs : r.verbs ≢ []
  pub verbs : (verb : String) → Memᴰ verb r.verbs → (verb ≡ "*") ⊎ Memᴰ verb supported_verbs
  pub resources :
      (group resource : String)
      → Memᴰ group r.api_groups
      → Memᴰ resource r.resources
      → is_supported_resource group resource ≡ true
  pub names : (name : String) → Memᴰ name r.resource_names → name ≢ ""

pub demand_inv :
    (passes : Bool) (message : String) {u : Unit {0}} → demand passes message ≡ ok u → passes ≡ true
demand_inv true message h = refl
demand_inv false message h = absurd (raise≢ok h)

pub not_blank : (s : String) → not (is_blank s) ≡ true → s ≢ ""
not_blank s h e = ground (arith, (==_iff s "").1 e)

pub filled_text_inv :
    (message : String) (value : Yaml) {s : String} → filled_text message value ≡ ok s → s ≢ ""
filled_text_inv message value {s} h =
    let (t, read, h') = >>=-eq-ok (text_of message value) _ h in
    let (u, filled, h'') = >>=-eq-ok (demand (not (is_blank t)) message) _ h' in
    subst (λ s. s ≢ "") (ok-injective h'')
      (not_blank t (demand_inv (not (is_blank t)) message filled))

map_result-nonempty :
    {A B : Type 0} (f : A → Result B) (x : A) (xs : List A) {ys : List B}
    → map_result f (x ∷ xs) ≡ ok ys
    → ys ≢ []
unfolding map_result
map_result-nonempty f x xs h e =
    let (y, hx, h') = >>=-eq-ok (f x) _ h in
    let (zs, hxs, h'') = >>=-eq-ok (map_result f xs) _ h' in cc (ok-injective h'', e)

map_result_each :
    {A B : Type 0} (f : A → Result B) (P : B → Type 0) (xs : List A) {ys : List B}
    → ((x : A) (y : B) → f x ≡ ok y → P y)
    → map_result f xs ≡ ok ys
    → (y : B) → Memᴰ y ys
    → P y
unfolding map_result
map_result_each f P [] one h y m = elim (subst (Memᴰ y) (sym (ok-injective h)) m) [ ]
map_result_each f P (x ∷ xs) one h y m =
    let (z, hx, h') = >>=-eq-ok (f x) _ h in
    let (zs, hxs, h'') = >>=-eq-ok (map_result f xs) _ h' in
    elim (Memᴰ-cons_cases (subst (Memᴰ y) (sym (ok-injective h'')) m)) [
      | inl here ↦ subst P (sym here) (one x z hx)
      | inr there ↦ map_result_each f P xs one hxs y there
    ]

values_nonempty :
    {B : Type 0} (message : String) (f : Yaml → Result B) (items : List Yaml) {ys : List B}
    {u : Unit {0}}
    → some_items message items ≡ ok u
    → map_result f items ≡ ok ys
    → ys ≢ []
values_nonempty message f [] filled read = absurd (raise≢ok filled)
values_nonempty message f (x ∷ xs) filled read = map_result-nonempty f x xs read

pub strings_nonempty :
    (value : Yaml) (field : String) (allow : Bool) {vs : List String}
    → strings value field allow ≡ ok vs
    → vs ≢ []
unfolding strings
strings_nonempty value field allow h =
    let (items, listed, h') = >>=-eq-ok (sequence_items _ value) _ h in
    let (u, filled, h'') = >>=-eq-ok (some_items _ items) _ h' in
    let (vs, read, h3) = >>=-eq-ok (map_result (text_of _) items) _ h'' in
    let (w, checked, h4) = >>=-eq-ok (demand (allow || not (any is_blank vs)) _) _ h3 in
    subst (λ l. l ≢ []) (ok-injective h4) (values_nonempty _ (text_of _) items filled read)

supported_verb :
    (verb : String) → is_supported_verb verb ≡ true → (verb ≡ "*") ⊎ Memᴰ verb supported_verbs
supported_verb verb h = elim (Bool-cases (verb == "*")) [
  | inl star ↦ inl ((==_iff verb "*").0 star)
  | inr other ↦ inr ((contains_iff supported_verbs verb).0 (rw other at h))
]

check_verbs_inv :
    (verbs : List String) {u : Unit {0}}
    → check_verbs verbs ≡ ok u
    → (verb : String) → Memᴰ verb verbs
    → (verb ≡ "*") ⊎ Memᴰ verb supported_verbs
check_verbs_inv [] h verb m = elim m [ ]
check_verbs_inv (v ∷ vs) h verb m =
    let (u, here, rest) = >>=-eq-ok (demand (is_supported_verb v) _) _ h in
    elim (Memᴰ-cons_cases m) [
      | inl e ↦
          subst (λ w. (w ≡ "*") ⊎ Memᴰ w supported_verbs) (sym e)
            (supported_verb v (demand_inv (is_supported_verb v) _ here))
      | inr later ↦ check_verbs_inv vs rest verb later
    ]

check_resources_inv :
    (group : String) (resources : List String) {u : Unit {0}}
    → check_resources group resources ≡ ok u
    → (resource : String) → Memᴰ resource resources
    → is_supported_resource group resource ≡ true
check_resources_inv group [] h resource m = elim m [ ]
check_resources_inv group (r ∷ rs) h resource m =
    let (u, here, rest) = >>=-eq-ok (demand (is_supported_resource group r) _) _ h in
    elim (Memᴰ-cons_cases m) [
      | inl e ↦
          subst (λ w. is_supported_resource group w ≡ true) (sym e)
            (demand_inv (is_supported_resource group r) _ here)
      | inr later ↦ check_resources_inv group rs rest resource later
    ]

check_groups_inv :
    (groups resources : List String) {u : Unit {0}}
    → check_groups groups resources ≡ ok u
    → (group resource : String) → Memᴰ group groups
    → Memᴰ resource resources
    → is_supported_resource group resource ≡ true
check_groups_inv [] resources h group resource m n = elim m [ ]
check_groups_inv (g ∷ gs) resources h group resource m n =
    let (u, here, rest) = >>=-eq-ok (check_resources g resources) _ h in
    elim (Memᴰ-cons_cases m) [
      | inl e ↦
          subst (λ w. is_supported_resource w resource ≡ true) (sym e)
            (check_resources_inv g resources here resource n)
      | inr later ↦ check_groups_inv gs resources rest group resource later n
    ]

rule-IsValid : (raw : Yaml) {r : PolicyRule} → rule raw ≡ ok r → IsValidRule r
unfolding rule
rule-IsValid raw h =
    let (entries, a, h1) = >>=-eq-ok (mapping_of "each rule must be a mapping" raw) _ h in
    let (groups, b, h2) =
      >>=-eq-ok
        (strings (or_default (get_entry "apiGroups" entries) (sequence (item (text "") no_items)))
          "apiGroups" true)
        _ h1 in
    let (resources, c, h3) =
      >>=-eq-ok (strings (entry_of "resources" entries) "resources" false) _ h2 in
    let (verbs, d, h4) = >>=-eq-ok (strings (entry_of "verbs" entries) "verbs" false) _ h3 in
    let (raw_names, e, h5) =
      >>=-eq-ok
        (sequence_items "resourceNames must be a list"
          (or_default (get_entry "resourceNames" entries) (sequence no_items)))
        _ h4 in
    let (names, f, h6) =
      >>=-eq-ok
        (map_result (filled_text "resourceNames entries must be non-empty strings") raw_names) _
        h5 in
    let (u, g, h7) = >>=-eq-ok (check_verbs verbs) _ h6 in
    let (w, k, h8) = >>=-eq-ok (check_groups groups resources) _ h7 in
    subst IsValidRule (ok-injective h8) (record {
      some_groups =
          strings_nonempty
            (or_default (get_entry "apiGroups" entries) (sequence (item (text "") no_items)))
            "apiGroups" true b;
      some_resources = strings_nonempty (entry_of "resources" entries) "resources" false c;
      some_verbs = strings_nonempty (entry_of "verbs" entries) "verbs" false d;
      verbs = check_verbs_inv verbs g;
      resources = check_groups_inv groups resources k;
      names =
          map_result_each (filled_text "resourceNames entries must be non-empty strings")
            (λ name. name ≢ "") raw_names
            (λ x y. filled_text_inv "resourceNames entries must be non-empty strings" x) f;
    })

pub rules-IsValid :
    (value : Yaml) {rs : List PolicyRule}
    → rules value ≡ ok rs
    → (r : PolicyRule) → Memᴰ r rs
    → IsValidRule r
unfolding rules
rules-IsValid value h =
    let (items, listed, h') = >>=-eq-ok (sequence_items _ value) _ h in
    map_result_each rule IsValidRule items (λ x y. rule-IsValid x) h'
