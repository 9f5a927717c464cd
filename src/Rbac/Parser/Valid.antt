-- ===== src/Rbac/Parser/Valid.antt =====
-- `parse_rbac`: what the objects that it returns keep to.
use kuber.Base.{
  String, ◌≡◌, ◌≢◌, sym, subst, inl, inr, ◌⊎◌, true, false, not, ◌||◌, Bool-cases, Option, none,
  some, List, [], ◌∷◌, ◌++◌, Memᴰ, ◌==◌, string_eq, ==_iff, arith,
}
use kuber.Base.Lists.{Memᴰ-cons_cases, Memᴰ-append_cases}
use kuber.Base.Result.{ok, ok-injective, raise≢ok, >>=-eq-ok}
use kuber.Models.Rbac.{ServiceAccountObject, RoleObject, BindingObject, ParsedRbac}
use kuber.Rbac.Yaml.{Items, Entries, entry_of}
use kuber.Rbac.Parser.{demand, is_blank, metadata, flatten_documents}
use kuber.Rbac.Parser.Rules.{demand_inv, not_blank}
use kuber.Rbac.Parser.Documents.{
  one_of, binding, role, service_account, supported_kinds, add_object, add_document, add_documents,
  parse_rbac,
}
use kuber.Rbac.Parser.Objects.{
  IsValidRole, IsValidBinding, one_of_inv, role-IsValid, binding-IsValid,
}

pub record IsValidParse (parsed : ParsedRbac) : Type 0 where
  pub each_role : (r : RoleObject) → Memᴰ r parsed.roles → IsValidRole r
  pub each_binding : (b : BindingObject) → Memᴰ b parsed.bindings → IsValidBinding b
  pub each_account : (a : ServiceAccountObject) → Memᴰ a parsed.service_accounts → a.namespace ≢ ""

each_snoc :
    {A : Type 0} (P : A → Type 0) (xs : List A) (x : A)
    → ((y : A) → Memᴰ y xs → P y)
    → P x
    → (y : A) → Memᴰ y (xs ++ x ∷ [])
    → P y
each_snoc P xs x before last y m = elim (Memᴰ-append_cases xs m) [
  | inl earlier ↦ before y earlier
  | inr here ↦ elim (Memᴰ-cons_cases here) [
    | inl e ↦ subst P (sym e) last
    | inr nothing ↦ elim nothing [ ]
  ]
]

service_account_inv :
    (name : String) (namespace : Option String) {a : ServiceAccountObject}
    → service_account name namespace ≡ ok a
    → a.namespace ≢ ""
unfolding service_account
service_account_inv name none h = absurd (raise≢ok h)
service_account_inv name (some s) h =
    let (u, filled, h') =
      >>=-eq-ok (demand (not (is_blank s)) "ServiceAccount requires metadata.namespace") _ h in
    subst (λ a. a.namespace ≢ "") (ok-injective h')
      (not_blank s
        (demand_inv (not (is_blank s)) "ServiceAccount requires metadata.namespace" filled))

role_kinds :
    (kind : String)
    → (kind == "Role" || kind == "ClusterRole") ≡ true
    → (kind ≡ "Role") ⊎ (kind ≡ "ClusterRole")
role_kinds kind h = elim (Bool-cases (kind == "Role")) [
  | inl e ↦ inl ((==_iff kind "Role").0 e)
  | inr e ↦ inr ((==_iff kind "ClusterRole").0 (ground arith))
]

binding_kinds :
    (kind : String)
    → Memᴰ kind supported_kinds
    → (kind == "ServiceAccount") ≡ false
    → (kind == "Role" || kind == "ClusterRole") ≡ false
    → (kind ≡ "RoleBinding") ⊎ (kind ≡ "ClusterRoleBinding")
binding_kinds kind m no_account no_role = elim (Memᴰ-cons_cases m) [
  | inl e ↦ absurd (ground (arith, (==_iff kind "ServiceAccount").1 e))
  | inr m ↦ elim (Memᴰ-cons_cases m) [
    | inl e ↦ absurd (ground (arith, (==_iff kind "Role").1 e))
    | inr m ↦ elim (Memᴰ-cons_cases m) [
      | inl e ↦ absurd (ground (arith, (==_iff kind "ClusterRole").1 e))
      | inr m ↦ elim (Memᴰ-cons_cases m) [
        | inl e ↦ inl e
        | inr m ↦ elim (Memᴰ-cons_cases m) [ inl e ↦ inr e | inr m ↦ elim m [ ] ]
      ]
    ]
  ]
]

module _ (parsed : ParsedRbac) (valid : IsValidParse parsed) (kind name : String)
    (namespace : Option String) (document : Entries) {next : ParsedRbac} where
  add_object-IsValid :
      Memᴰ kind supported_kinds
      → add_object parsed kind name namespace document ≡ ok next
      → IsValidParse next
  unfolding add_object
  add_object-IsValid m h = elim (Bool-cases (kind == "ServiceAccount")) [
    | inl account ↦
        let (a, made, h') = >>=-eq-ok (service_account name namespace) _ (rw account at h) in
        subst IsValidParse (ok-injective h') (record {
          each_role = valid.each_role;
          each_binding = valid.each_binding;
          each_account =
              each_snoc (λ a. a.namespace ≢ "") parsed.service_accounts a valid.each_account
                (service_account_inv name namespace made);
        })
    | inr no_account ↦ elim (Bool-cases (kind == "Role" || kind == "ClusterRole")) [
      | inl is_role ↦
          let (r, made, h') =
            >>=-eq-ok (role kind name namespace document) _ (rw (no_account, is_role) at h) in
          subst IsValidParse (ok-injective h') (record {
            each_role =
                each_snoc IsValidRole parsed.roles r valid.each_role
                  (role-IsValid kind name namespace document (role_kinds kind is_role) made);
            each_binding = valid.each_binding;
            each_account = valid.each_account;
          })
      | inr no_role ↦
          let (b, made, h') =
            >>=-eq-ok (binding kind name namespace document) _ (rw (no_account, no_role) at h) in
          subst IsValidParse (ok-injective h') (record {
            each_role = valid.each_role;
            each_binding = each_snoc IsValidBinding parsed.bindings b valid.each_binding (
                binding-IsValid kind name namespace document
                  (binding_kinds kind m no_account no_role) made);
            each_account = valid.each_account;
          })
    ]
  ]

add_document-IsValid :
    (parsed : ParsedRbac) (document : Entries) {next : ParsedRbac}
    → IsValidParse parsed
    → add_document parsed document ≡ ok next
    → IsValidParse next
unfolding add_document
add_document-IsValid parsed document valid h =
    let (kind, supported, h1) =
      >>=-eq-ok (one_of "unsupported RBAC kind" supported_kinds (entry_of "kind" document)) _ h in
    let ((name, namespace), read, h2) = >>=-eq-ok (metadata document) _ h1 in
    add_object-IsValid parsed valid kind name namespace document
      (one_of_inv "unsupported RBAC kind" supported_kinds (entry_of "kind" document) supported) h2

add_documents-IsValid :
    (parsed : ParsedRbac) (documents : List Entries) {next : ParsedRbac}
    → IsValidParse parsed
    → add_documents parsed documents ≡ ok next
    → IsValidParse next
unfolding add_documents
add_documents-IsValid parsed [] valid h = subst IsValidParse (ok-injective h) valid
add_documents-IsValid parsed (document ∷ rest) valid h =
    let (between, added, h') = >>=-eq-ok (add_document parsed document) _ h in
    add_documents-IsValid between rest (add_document-IsValid parsed document valid added) h'

-- Where the parser returns: each rule of a role has groups, resources and verbs, of which the
-- verbs and the resources in the groups are supported, and resource names that are not empty; a
-- Role and a RoleBinding have a namespace that is not empty, a ClusterRole and a
-- ClusterRoleBinding have none; a binding names a Role or a ClusterRole, a ClusterRoleBinding
-- only a ClusterRole; each subject has a name and a namespace, and each ServiceAccount a
-- namespace.
pub parse_rbac-IsValid :
    (documents : Items) {parsed : ParsedRbac}
    → parse_rbac documents ≡ ok parsed
    → IsValidParse parsed
unfolding parse_rbac
parse_rbac-IsValid documents h =
    let (flattened, read, h') = >>=-eq-ok (flatten_documents documents) _ h in
    add_documents-IsValid (record { service_accounts = []; roles = []; bindings = [] }) flattened
      (record {
        each_role = λ r m. elim m [ ];
        each_binding = λ b m. elim m [ ];
        each_account = λ a m. elim m [ ];
      })
      h'
