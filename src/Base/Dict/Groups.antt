-- ===== src/Base/Dict/Groups.antt =====
-- Grouping by a key in a `defaultdict`: `for x in xs: groups[key(x)].add(value(x))`.
use mathlib.Core.Path.{◌≡◌, refl, sym, ap, subst, ◌∙◌}
use mathlib.Core.Logic.{◌≢◌, ◌⊎◌, inl, inr}
use mathlib.Core.Option.{Option, none, some}
use mathlib.Core.List.{List, [], ◌∷◌, ◌++◌, Memᴰ, append_assoc, append-nil}
use mathlib.Core.Bool.{true, false}
use native.Mathlib.Omega.{arith}
use kuber.Base.Tests.{Bool-cases, Option-cases}
use kuber.Base.Equality.{Eq, ◌==◌, ==_iff}
use kuber.Base.Lists.{
  IsDistinct, Memᴰ-cons_cases, Memᴰ-append_cases, Memᴰ-append_left, Memᴰ-append_right,
}
use kuber.Base.Dict.{Dict, keys, get, put, get-Memᴰ, put-IsDistinct}

-- The value that a `defaultdict` of collections gives for a key.
abbrev pub or_nil {ℓ} : {V : Type ℓ} → Option (List V) → List V
or_nil none = []
or_nil (some vs) = vs

module _ {ℓ κ} {K : Type ℓ} {V : Type κ} ⦃e : Eq K⦄ where
  pub Memᴰ-put_self : (k : K) (v : V) (d : Dict K V) → Memᴰ (k, v) (put k v d)
  unfolding put
  Memᴰ-put_self k v [] = Memᴰ.head refl
  Memᴰ-put_self k v ((j, w) ∷ d) = elim (Bool-cases (j == k)) [
    | inl same ↦ rw same (Memᴰ.head (ap (λ i. (i, v)) (sym ((==_iff j k).0 same))))
    | inr other ↦ rw other (Memᴰ.tail (Memᴰ-put_self k v d))
  ]

  pub Memᴰ-put_other :
      (k i : K) (v w : V) (d : Dict K V)
      → (i == k) ≡ false
      → Memᴰ (i, w) d
      → Memᴰ (i, w) (put k v d)
  unfolding put
  Memᴰ-put_other k i v w [] ne m = elim m [ ]
  Memᴰ-put_other k i v w ((j, x) ∷ d) ne m = elim (Bool-cases (j == k)) [
    | inl same ↦ elim (Memᴰ-cons_cases m) [
      | inl here ↦
          let found : (i == k) ≡ true = ap (λ p. p.0 == k) here ∙ same in absurd (ground arith)
      | inr there ↦ rw same (Memᴰ.tail there)
    ]
    | inr other ↦ elim (Memᴰ-cons_cases m) [
      | inl here ↦ rw other (Memᴰ.head here)
      | inr there ↦ rw other (Memᴰ.tail (Memᴰ-put_other k i v w d ne there))
    ]
  ]

  pub Memᴰ-put_inv :
      (k i : K) (v w : V) (d : Dict K V)
      → Memᴰ (i, w) (put k v d)
      → ((i ≡ k) × (w ≡ v)) ⊎ Memᴰ (i, w) d
  unfolding put
  Memᴰ-put_inv k i v w [] m = elim (Memᴰ-cons_cases m) [
    | inl here ↦ inl (ap (λ p. p.0) here, ap (λ p. p.1) here)
    | inr there ↦ elim there [ ]
  ]
  Memᴰ-put_inv k i v w ((j, x) ∷ d) m = elim (Bool-cases (j == k)) [
    | inl same ↦ elim (Memᴰ-cons_cases (rw same at m)) [
      | inl here ↦ inl (ap (λ p. p.0) here ∙ (==_iff j k).0 same, ap (λ p. p.1) here)
      | inr there ↦ inr (Memᴰ.tail there)
    ]
    | inr other ↦ elim (Memᴰ-cons_cases (rw other at m)) [
      | inl here ↦ inr (Memᴰ.head here)
      | inr there ↦ elim (Memᴰ-put_inv k i v w d there) [
        | inl set ↦ inl set
        | inr old ↦ inr (Memᴰ.tail old)
      ]
    ]
  ]

  pub Memᴰ-keys : (k : K) (v : V) (d : Dict K V) → Memᴰ (k, v) d → Memᴰ k (keys d)
  Memᴰ-keys k v [] m = elim m [ ]
  Memᴰ-keys k v ((j, w) ∷ d) m = elim (Memᴰ-cons_cases m) [
    | inl here ↦ Memᴰ.head (ap (λ p. p.0) here)
    | inr there ↦ Memᴰ.tail (Memᴰ-keys k v d there)
  ]

  pub get_of_Memᴰ :
      (k : K) (v : V) (d : Dict K V) → IsDistinct (keys d) → Memᴰ (k, v) d → get k d ≡ some v
  unfolding get
  get_of_Memᴰ k v [] h m = elim m [ ]
  get_of_Memᴰ k v ((j, w) ∷ d) h m = elim (Memᴰ-cons_cases m) [
    | inl here ↦
        let same : (j == k) ≡ true = (==_iff j k).1 (sym (ap (λ p. p.0) here)) in
        rw same (ap some (sym (ap (λ p. p.1) here)))
    | inr there ↦ elim (Bool-cases (j == k)) [
      | inl same ↦
          absurd
            (h.0 (subst (λ i. Memᴰ i (keys d)) (sym ((==_iff j k).0 same)) (Memᴰ-keys k v d there)))
      | inr other ↦ rw other (get_of_Memᴰ k v d h.1 there)
    ]
  ]

-- How a value is added to a collection.
pub record IsAdd {ℓ} {V : Type ℓ} (add : V → List V → List V) : Type ℓ where
  pub adds : (v : V) (vs : List V) → Memᴰ v (add v vs)
  pub keeps : (v w : V) (vs : List V) → Memᴰ w vs → Memᴰ w (add v vs)
  pub only : (v w : V) (vs : List V) → Memᴰ w (add v vs) → (w ≡ v) ⊎ Memᴰ w vs

module _ {ℓ κ μ} {A : Type ℓ} {K : Type κ} {V : Type μ} ⦃e : Eq K⦄ (key : A → K) (value : A → V)
    (add : V → List V → List V) where
  -- The body of the loop, and the loop.
  abbrev pub add_to_group : A → Dict K (List V) → Dict K (List V)
  add_to_group x d = put (key x) (add (value x) (or_nil (get (key x) d))) d

  abbrev pub group_by : Dict K (List V) → List A → Dict K (List V)
  group_by d [] = d
  group_by d (x ∷ xs) = group_by (add_to_group x d) xs

  -- The groups hold the values of the items, each under its item's key.
  pub record IsGrouped (d : Dict K (List V)) (xs : List A) : Type (ℓ ⊔ κ ⊔ μ) where
    pub distinct : IsDistinct (keys d)
    pub nonempty : (k : K) (vs : List V) → Memᴰ (k, vs) d → vs ≢ []
    pub sound :
        (k : K) (vs : List V) (v : V)
        → Memᴰ (k, vs) d
        → Memᴰ v vs
        → (x : A) × Memᴰ x xs × (key x ≡ k) × (value x ≡ v)
    pub complete : (x : A) → Memᴰ x xs → (vs : List V) × Memᴰ (key x, vs) d × Memᴰ (value x) vs

  module _ (law : IsAdd add) where
    member-ne-nil : {v : V} {vs : List V} → Memᴰ v vs → vs ≢ []
    member-ne-nil {v} m same = elim (subst (Memᴰ v) same m) [ ]

    old_value :
        (k : K) (v : V) (d : Dict K (List V))
        → Memᴰ v (or_nil (get k d))
        → (vs : List V) × Memᴰ (k, vs) d × Memᴰ v vs
    old_value k v d m = elim (Option-cases (get k d)) [
      | inl missing ↦ elim (subst (λ o. Memᴰ v (or_nil o)) missing m) [ ]
      | inr (vs, found) ↦ (vs, get-Memᴰ k d found, subst (λ o. Memᴰ v (or_nil o)) found m)
    ]

    module _ (d : Dict K (List V)) (seen : List A) (x : A) (g : IsGrouped d seen) where
      abbrev added : List V
      added = add (value x) (or_nil (get (key x) d))

      step_nonempty : (k : K) (vs : List V) → Memᴰ (k, vs) (add_to_group x d) → vs ≢ []
      step_nonempty k vs m = elim (Memᴰ-put_inv (key x) k _ vs d m) [
        | inl (same, set) ↦
            member-ne-nil
              (subst (Memᴰ (value x)) (sym set) (law.adds (value x) (or_nil (get (key x) d))))
        | inr old ↦ g.nonempty k vs old
      ]

      step_sound :
          (k : K) (vs : List V) (v : V)
          → Memᴰ (k, vs) (add_to_group x d)
          → Memᴰ v vs
          → (y : A) × Memᴰ y (seen ++ x ∷ []) × (key y ≡ k) × (value y ≡ v)
      step_sound k vs v m n =
          elim (Memᴰ-put_inv (key x) k (add (value x) (or_nil (get (key x) d))) vs d m) [
            | inl (same, set) ↦
                elim (law.only (value x) v (or_nil (get (key x) d)) (subst (Memᴰ v) set n)) [
                  | inl new ↦ (x, Memᴰ-append_right seen (Memᴰ.head refl), sym same, sym new)
                  | inr old ↦
                      let (ws, here, listed) = old_value (key x) v d old in
                      let (y, seen_y, k', v') = g.sound (key x) ws v here listed in
                      (y, Memᴰ-append_left (x ∷ []) seen_y, k' ∙ sym same, v')
                ]
            | inr old ↦
                let (y, seen_y, k', v') = g.sound k vs v old n in
                (y, Memᴰ-append_left (x ∷ []) seen_y, k', v')
          ]

      step_complete :
          (y : A)
          → Memᴰ y (seen ++ x ∷ [])
          → (vs : List V) × Memᴰ (key y, vs) (add_to_group x d) × Memᴰ (value y) vs
      step_complete y m = elim (Memᴰ-append_cases seen m) [
        | inr last ↦ elim (Memᴰ-cons_cases last) [
          | inl here ↦
              subst (λ z. (vs : List V) × Memᴰ (key z, vs) (add_to_group x d) × Memᴰ (value z) vs)
                (sym here)
                (added, Memᴰ-put_self (key x) added d, law.adds (value x) (or_nil (get (key x) d)))
          | inr nothing ↦ elim nothing [ ]
        ]
        | inl earlier ↦
            let (vs, here, listed) = g.complete y earlier in
            elim (Bool-cases (key y == key x)) [
              | inr other ↦ (vs, Memᴰ-put_other (key x) (key y) added vs d other here, listed)
              | inl same ↦
                  let same' = sym ((==_iff (key y) (key x)).0 same) in
                  let held : get (key x) d ≡ some vs =
                    get_of_Memᴰ (key x) vs d g.distinct
                      (subst (λ k. Memᴰ (k, vs) d) (sym same') here) in
                  (
                    added,
                    subst (λ k. Memᴰ (k, added) (add_to_group x d)) same'
                        (Memᴰ-put_self (key x) added d),
                    law.keeps (value x) (value y) (or_nil (get (key x) d))
                        (subst (λ o. Memᴰ (value y) (or_nil o)) (sym held) listed),
                  )
            ]
      ]

      step_IsGrouped : IsGrouped (add_to_group x d) (seen ++ x ∷ [])
      step_IsGrouped = record {
        distinct = put-IsDistinct (key x) added d g.distinct;
        nonempty = step_nonempty;
        sound = step_sound;
        complete = step_complete;
      }

    group_by-from :
        (d : Dict K (List V)) (seen xs : List A)
        → IsGrouped d seen
        → IsGrouped (group_by d xs) (seen ++ xs)
    group_by-from d seen [] g = subst (IsGrouped d) (sym (append-nil seen)) g
    group_by-from d seen (x ∷ xs) g =
        subst (IsGrouped (group_by (add_to_group x d) xs)) (append_assoc seen (x ∷ []) xs)
          (group_by-from (add_to_group x d) (seen ++ x ∷ []) xs (step_IsGrouped d seen x g))

    pub group_by-IsGrouped : (xs : List A) → IsGrouped (group_by [] xs) xs
    group_by-IsGrouped xs = group_by-from [] [] xs (record {
      distinct = tt;
      nonempty = λ k vs m. elim m [ ];
      sound = λ k vs v m. elim m [ ];
      complete = λ x m. elim m [ ];
    })
