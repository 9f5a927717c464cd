-- ===== src/Rbac/Resolver/Referred.antt =====
-- The role that a binding refers to and the scope that it grants in, as RBAC has them, and that the
-- search and the scope of the resolver are these.
use mathlib.Core.Bool.{false≢true}
use kuber.Base.{
  String, ◌≡◌, refl, sym, subst, ap, ◌∙◌, ◌⊎◌, inl, inr, true, false, Bool-cases, ==_iff, string_eq,
  option_eq, Option, none, some, List, [], ◌∷◌, ◌++◌, Memᴰ, arith,
}
use kuber.Base.Lists.{find, Memᴰ-cons_cases}
use kuber.Models.Rbac.{RoleObject, BindingObject}
use kuber.Rbac.Resolver.{role_fits, binding_scope}

-- A binding refers to a role: by its name, and to a ClusterRole, or to a Role of the namespace of
-- the binding.
pub record Names (binding : BindingObject) (role : RoleObject) : Type 0 where
  pub name : role.name ≡ binding.role_name
  pub kind :
      ((binding.role_kind ≡ "ClusterRole") × (role.cluster_role ≡ true))
      ⊎ ((binding.role_kind ≡ "Role")
          × (role.cluster_role ≡ false)
          × (role.namespace ≡ binding.namespace))

-- The scope of a binding: cluster-wide for a ClusterRoleBinding, the namespace of a RoleBinding.
abbrev pub IsScope : BindingObject → Option String → Type 0
IsScope binding scope =
    ((binding.cluster_binding ≡ true) × (scope ≡ none))
    ⊎ ((binding.cluster_binding ≡ false) × (scope ≡ binding.namespace))

-- The first of the roles that a binding refers to.
pub record IsFirstNamed (binding : BindingObject) (roles : List RoleObject) (role : RoleObject)
    : Type 0 where
  pub before : List RoleObject
  pub after : List RoleObject
  pub declared : roles ≡ before ++ role ∷ after
  pub named : Names binding role
  pub first : (other : RoleObject) → Memᴰ other before → ¬ Names binding other

role_fits_sound :
    (binding : BindingObject) (role : RoleObject)
    → role_fits binding role ≡ true
    → Names binding role
unfolding role_fits
role_fits_sound binding role h = record {
  name = (==_iff role.name binding.role_name).0 (ground arith);
  kind = elim (Bool-cases role.cluster_role) [
    | inl one ↦ inl ((==_iff binding.role_kind "ClusterRole").0 (ground arith), one)
    | inr another ↦ inr (
      (==_iff binding.role_kind "Role").0 (ground arith),
      another,
      (==_iff role.namespace binding.namespace).0 (ground arith),
    )
  ];
}

role_fits_complete :
    (binding : BindingObject) (role : RoleObject)
    → Names binding role
    → role_fits binding role ≡ true
unfolding role_fits
role_fits_complete binding role n =
    let name = (==_iff role.name binding.role_name).1 n.name in
    elim n.kind [
      | inl (kind, one) ↦
          let kind' = (==_iff binding.role_kind "ClusterRole").1 kind in ground arith
      | inr (kind, another, same) ↦
          let kind' = (==_iff binding.role_kind "Role").1 kind in
          let same' = (==_iff role.namespace binding.namespace).1 same in ground arith
    ]

pub find-first :
    (binding : BindingObject) (roles : List RoleObject) {role : RoleObject}
    → find (role_fits binding) roles ≡ some role
    → IsFirstNamed binding roles role
find-first binding [] h = cc
find-first binding (r ∷ roles) {role} h = elim (Bool-cases (role_fits binding r)) [
  | inl one ↦
      let same : r ≡ role = cc (rw one at h) in
      record {
        before = [];
        after = roles;
        declared = ap (λ x. x ∷ roles) same;
        named = subst (Names binding) same (role_fits_sound binding r one);
        first = λ other m. elim m [ ];
      }
  | inr another ↦
      let later = find-first binding roles (rw another at h) in
      record {
        before = r ∷ later.before;
        after = later.after;
        declared = ap (λ l. r ∷ l) later.declared;
        named = later.named;
        first = λ other m n. elim (Memᴰ-cons_cases m) [
          | inl same ↦
              false≢true (sym another ∙ role_fits_complete binding r (subst (Names binding) same n))
          | inr there ↦ later.first other there n
        ];
      }
]

find-append :
    (binding : BindingObject) (before after : List RoleObject) (role : RoleObject)
    → Names binding role
    → ((other : RoleObject) → Memᴰ other before → ¬ Names binding other)
    → find (role_fits binding) (before ++ role ∷ after) ≡ some role
find-append binding [] after role named first = rw (role_fits_complete binding role named)
find-append binding (r ∷ before) after role named first = elim (Bool-cases (role_fits binding r)) [
  | inl one ↦ absurd (first r (Memᴰ.head refl) (role_fits_sound binding r one))
  | inr another ↦
      rw another (find-append binding before after role named (λ o m. first o (Memᴰ.tail m)))
]

pub first-find :
    (binding : BindingObject) (roles : List RoleObject) {role : RoleObject}
    → IsFirstNamed binding roles role
    → find (role_fits binding) roles ≡ some role
first-find binding roles {role} f =
    ap (find (role_fits binding)) f.declared
    ∙ find-append binding f.before f.after role f.named f.first

pub IsScope-binding_scope : (binding : BindingObject) → IsScope binding (binding_scope binding)
IsScope-binding_scope binding = elim (Bool-cases binding.cluster_binding) [
  | inl one ↦ inl (one, rw one)
  | inr another ↦ inr (another, rw another)
]

pub IsScope-inv :
    (binding : BindingObject) {scope : Option String}
    → IsScope binding scope
    → scope ≡ binding_scope binding
IsScope-inv binding (inl (one, h)) = rw (one, h)
IsScope-inv binding (inr (another, h)) = rw (another, h)
