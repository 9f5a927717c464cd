-- ===== src/Rbac/Parser/Objects.antt =====
-- The branches of a role and a binding: what the objects that they return keep to.
use kuber.Base.{
  String, ◌≡◌, ◌≢◌, refl, sym, ap, subst, inl, inr, ◌⊎◌, Bool, true, false, not, ◌&&◌, Bool-cases,
  Option, none, some, List, [], ◌∷◌, Memᴰ, ◌==◌, string_eq, ==_iff, ==_refl, contains, contains_iff,
  arith, if◌then◌else◌,
}
use kuber.Base.Lists.{Memᴰ-cons_cases, Memᴰ-append_cases}
use kuber.Base.Result.{Result, ok, ok-injective, raise≢ok, >>=-eq-ok}
use kuber.Models.Policy.{PolicyRule}
use kuber.Models.Rbac.{ServiceAccountRef, RoleObject, BindingObject}
use kuber.Rbac.Yaml.{
  Yaml, null, flag, number, text, sequence, mapping, no_items, Entries, get_entry, entry_of,
  or_default,
}
use kuber.Rbac.Parser.{demand, mapping_of, sequence_items, filled_text, rules, is_text}
use kuber.Rbac.Parser.Rules.{IsValidRule, demand_inv, filled_text_inv, not_blank, rules-IsValid}
use kuber.Rbac.Parser.Documents.{
  is_missing, one_of, role_ref_message, role_ref, subject_namespace, subject, subjects, binding,
  role,
}

-- An object of a namespace has one that is not empty; any other has none.
pub data IsScoped : (cluster_wide : Bool) → Option String → Type 0 where
  everywhere : IsScoped true none
  within : {namespace : String} → namespace ≢ "" → IsScoped false (some namespace)

pub record IsValidRole (r : RoleObject) : Type 0 where
  pub scope : IsScoped r.cluster_role r.namespace
  pub each_rule : (rule : PolicyRule) → Memᴰ rule r.rules → IsValidRule rule

pub record IsNamed (account : ServiceAccountRef) : Type 0 where
  pub named : account.name ≢ ""
  pub placed : account.namespace ≢ ""

pub record IsValidBinding (b : BindingObject) : Type 0 where
  pub scope : IsScoped b.cluster_binding b.namespace
  pub kind : (b.role_kind ≡ "Role") ⊎ (b.role_kind ≡ "ClusterRole")
  pub cluster_kind : b.cluster_binding ≡ true → b.role_kind ≡ "ClusterRole"
  pub role_named : b.role_name ≢ ""
  pub each_subject : (account : ServiceAccountRef) → Memᴰ account b.subjects → IsNamed account

filled : (namespace : Option String) → not (is_missing namespace) ≡ true → IsScoped false namespace
filled none h = absurd (ground arith)
filled (some s) h = within (not_blank s h)

-- Of two kinds, the small one is of a namespace.
scoped :
    (small big : String)
    → (small == big) ≡ false
    → (big == small) ≡ false
    → (kind : String) (namespace : Option String) → (kind ≡ small) ⊎ (kind ≡ big)
    → not (kind == small && is_missing namespace) ≡ true
    → IsScoped (kind == big) (if kind == small then namespace else none)
scoped small big ne ne' kind namespace (inl e) h =
    let present : not (is_missing namespace) ≡ true = rw (e, ==_refl small) at h in
    rw (e, ne, ==_refl small) (filled namespace present)
scoped small big ne ne' kind namespace (inr e) h = rw (e, ne', ==_refl big) everywhere

pub role-IsValid :
    (kind name : String) (namespace : Option String) (document : Entries) {r : RoleObject}
    → (kind ≡ "Role") ⊎ (kind ≡ "ClusterRole")
    → role kind name namespace document ≡ ok r
    → IsValidRole r
unfolding role
role-IsValid kind name namespace document of_kind h =
    let (u, present, h1) =
      >>=-eq-ok
        (demand (not (kind == "Role" && is_missing namespace)) "Role requires metadata.namespace") _
        h in
    let (rs, read, h2) =
      >>=-eq-ok (rules (or_default (get_entry "rules" document) (sequence no_items))) _ h1 in
    subst IsValidRole (ok-injective h2) (record {
      scope = scoped "Role" "ClusterRole" refl refl kind namespace of_kind (
          demand_inv (not (kind == "Role" && is_missing namespace))
            "Role requires metadata.namespace" present);
      each_rule = rules-IsValid (or_default (get_entry "rules" document) (sequence no_items)) read;
    })

pub one_of_inv :
    (message : String) (texts : List String) (value : Yaml) {s : String}
    → one_of message texts value ≡ ok s
    → Memᴰ s texts
one_of_inv message texts (text t) {s} h = elim (Bool-cases (contains texts t)) [
  | inl found ↦
      let same : ok t ≡ ok s = rw found at h in
      subst (λ s. Memᴰ s texts) (ok-injective same) ((contains_iff texts t).0 found)
  | inr missing ↦ let raised : Result.raise _ ≡ ok s = rw missing at h in absurd (raise≢ok raised)
]
one_of_inv message texts (sequence items) h = absurd (raise≢ok h)
one_of_inv message texts (mapping m) h = absurd (raise≢ok h)
one_of_inv message texts null h = absurd (raise≢ok h)
one_of_inv message texts (flag b) h = absurd (raise≢ok h)
one_of_inv message texts (number n) h = absurd (raise≢ok h)

role_kind :
    (kind : String)
    → Memᴰ kind ("Role" ∷ "ClusterRole" ∷ [])
    → (kind ≡ "Role") ⊎ (kind ≡ "ClusterRole")
role_kind kind m = elim (Memᴰ-cons_cases m) [
  | inl e ↦ inl e
  | inr n ↦ elim (Memᴰ-cons_cases n) [ inl e ↦ inr e | inr o ↦ elim o [ ] ]
]

role_ref_inv :
    (value : Yaml) {kind name : String}
    → role_ref value ≡ ok (kind, name)
    → ((kind ≡ "Role") ⊎ (kind ≡ "ClusterRole")) × (name ≢ "")
unfolding role_ref
role_ref_inv value h =
    let (entries, a, h1) = >>=-eq-ok (mapping_of role_ref_message value) _ h in
    let (u, b, h2) =
      >>=-eq-ok
        (demand (is_text "rbac.authorization.k8s.io" (entry_of "apiGroup" entries))
          role_ref_message)
        _ h1 in
    let (k, c, h3) =
      >>=-eq-ok (one_of role_ref_message ("Role" ∷ "ClusterRole" ∷ []) (entry_of "kind" entries)) _
        h2 in
    let (n, d, h4) = >>=-eq-ok (filled_text role_ref_message (entry_of "name" entries)) _ h3 in
    (
      subst (λ k. (k ≡ "Role") ⊎ (k ≡ "ClusterRole")) (ap (λ p. p.0) (ok-injective h4))
          (role_kind k (
            one_of_inv role_ref_message ("Role" ∷ "ClusterRole" ∷ []) (entry_of "kind" entries) c)),
      subst (λ n. n ≢ "") (ap (λ p. p.1) (ok-injective h4))
          (filled_text_inv role_ref_message (entry_of "name" entries) d),
    )

abbrev subject_message : String
subject_message = "ServiceAccount subjects require name and namespace"

subject_inv :
    (namespace : Option String) (value : Yaml) {accounts : List ServiceAccountRef}
    → subject namespace value ≡ ok accounts
    → (a : ServiceAccountRef) → Memᴰ a accounts
    → IsNamed a
unfolding subject
subject_inv namespace value {accounts} h a m =
    let (entries, read, h1) =
      >>=-eq-ok (mapping_of "binding subjects must be mappings" value) _ h in
    elim (Bool-cases (not (is_text "ServiceAccount" (entry_of "kind" entries)))) [
      | inl other ↦
          let skipped : ◌≡◌ {A = Result (List ServiceAccountRef)} (ok []) (ok accounts) =
            rw other at h1 in
          elim (subst (Memᴰ a) (sym (ok-injective skipped)) m) [ ]
      | inr account ↦
          let (n, b, h2) =
            >>=-eq-ok (filled_text subject_message (entry_of "name" entries)) _
              (rw account at h1) in
          let (s, c, h3) =
            >>=-eq-ok
              (filled_text subject_message
                (subject_namespace namespace (entry_of "namespace" entries)))
              _ h2 in
          elim (Memᴰ-cons_cases (subst (Memᴰ a) (sym (ok-injective h3)) m)) [
            | inl e ↦ subst IsNamed (sym e) (record {
              named = filled_text_inv subject_message (entry_of "name" entries) b;
              placed =
                  filled_text_inv subject_message
                    (subject_namespace namespace (entry_of "namespace" entries)) c;
            })
            | inr nothing ↦ elim nothing [ ]
          ]
    ]

subjects_inv :
    (namespace : Option String) (values : List Yaml) {accounts : List ServiceAccountRef}
    → subjects namespace values ≡ ok accounts
    → (a : ServiceAccountRef) → Memᴰ a accounts
    → IsNamed a
unfolding subjects
subjects_inv namespace [] h a m = elim (subst (Memᴰ a) (sym (ok-injective h)) m) [ ]
subjects_inv namespace (value ∷ values) h a m =
    let (first, b, h1) = >>=-eq-ok (subject namespace value) _ h in
    let (later, c, h2) = >>=-eq-ok (subjects namespace values) _ h1 in
    elim (Memᴰ-append_cases first (subst (Memᴰ a) (sym (ok-injective h2)) m)) [
      | inl here ↦ subject_inv namespace value b a here
      | inr there ↦ subjects_inv namespace values c a there
    ]

cluster_only :
    (kind role_kind : String)
    → not (kind == "ClusterRoleBinding" && not (role_kind == "ClusterRole")) ≡ true
    → (kind == "ClusterRoleBinding") ≡ true
    → role_kind ≡ "ClusterRole"
cluster_only kind role_kind h is = (==_iff role_kind "ClusterRole").0 (ground arith)

pub binding-IsValid :
    (kind name : String) (namespace : Option String) (document : Entries) {b : BindingObject}
    → (kind ≡ "RoleBinding") ⊎ (kind ≡ "ClusterRoleBinding")
    → binding kind name namespace document ≡ ok b
    → IsValidBinding b
unfolding binding
binding-IsValid kind name namespace document of_kind h =
    let (u, present, h1) =
      >>=-eq-ok
        (demand (not (kind == "RoleBinding" && is_missing namespace))
          "RoleBinding requires metadata.namespace")
        _ h in
    let ((role_kind, role_name), a, h2) = >>=-eq-ok (role_ref (entry_of "roleRef" document)) _ h1 in
    let (w, fits, h3) =
      >>=-eq-ok
        (demand (not (kind == "ClusterRoleBinding" && not (role_kind == "ClusterRole")))
          "ClusterRoleBinding must reference a ClusterRole")
        _ h2 in
    let (raw, b, h4) =
      >>=-eq-ok
        (sequence_items "binding subjects must be a list"
          (or_default (get_entry "subjects" document) (sequence no_items)))
        _ h3 in
    let (accounts, c, h5) = >>=-eq-ok (subjects namespace raw) _ h4 in
    let (is_kind, named) = role_ref_inv (entry_of "roleRef" document) a in
    subst IsValidBinding (ok-injective h5) (record {
      scope = scoped "RoleBinding" "ClusterRoleBinding" refl refl kind namespace of_kind (
          demand_inv (not (kind == "RoleBinding" && is_missing namespace))
            "RoleBinding requires metadata.namespace" present);
      kind = is_kind;
      cluster_kind = cluster_only kind role_kind (
          demand_inv (not (kind == "ClusterRoleBinding" && not (role_kind == "ClusterRole")))
            "ClusterRoleBinding must reference a ClusterRole" fits);
      role_named = named;
      each_subject = subjects_inv namespace raw c;
    })
