-- ===== src/Base/Dict.antt =====
-- Python's `dict`: the entries in the order in which their keys came first. Writing to a key that
-- is there changes its value and keeps its place.
pub mod Unique
pub mod Groups
use Prim.Native.Nat.{ℕ, suc, ◌≤◌}
use mathlib.Core.Path.{◌≡◌, refl, ap, ap₂, sym}
use mathlib.Core.Logic.{◌⊎◌, inl, inr}
use mathlib.Core.Option.{Option, none, some}
use mathlib.Core.List.{List, [], ◌∷◌, ◌++◌, Memᴰ}
use native.Mathlib.Omega.{arith}
use kuber.Base.Tests.{if◌then◌else◌, Bool-cases}
use kuber.Base.Equality.{Eq, ◌==◌, ==_iff}
use kuber.Base.Lists.{IsDistinct, length, Memᴰ-cons_cases}

abbrev pub Dict {ℓ κ} : Type ℓ → Type κ → Type (ℓ ⊔ κ)
Dict K V = List (K × V)

module _ {ℓ κ} {K : Type ℓ} {V : Type κ} where
  abbrev pub keys : Dict K V → List K
  keys [] = []
  keys ((k, v) ∷ d) = k ∷ keys d

  abbrev pub values : Dict K V → List V
  values [] = []
  values ((k, v) ∷ d) = v ∷ values d

module _ {ℓ κ} {K : Type ℓ} {V : Type κ} ⦃e : Eq K⦄ where
  -- `d.get(k)`
  unfoldable pub get : K → Dict K V → Option V
  get k [] = none
  get k ((j, v) ∷ d) = if j == k then some v else get k d

  -- `d[k] = v`
  unfoldable pub put : K → V → Dict K V → Dict K V
  put k v [] = (k, v) ∷ []
  put k v ((j, w) ∷ d) = if j == k then (j, v) ∷ d else (j, w) ∷ put k v d

  pub get-put :
      (k j : K) (v : V) (d : Dict K V) → get j (put k v d) ≡ (if k == j then some v else get j d)
  unfolding get put
  get-put k j v [] = refl
  get-put k j v ((i, w) ∷ d) = ground (arith, ==_iff k j, ==_iff i k, ==_iff i j, get-put k j v d)

  pub put_new : (k : K) (v : V) (d : Dict K V) → ¬ Memᴰ k (keys d) → put k v d ≡ d ++ (k, v) ∷ []
  unfolding put
  put_new k v [] h = refl
  put_new k v ((j, w) ∷ d) h = elim (Bool-cases (j == k)) [
    | inl same ↦ absurd (h (Memᴰ.head (sym ((==_iff j k).0 same))))
    | inr other ↦ rw other (ap (λ t. (j, w) ∷ t) (put_new k v d (λ m. h (Memᴰ.tail m))))
  ]

  pub put-keys_inv :
      {i : K} (k : K) (v : V) (d : Dict K V) → Memᴰ i (keys (put k v d)) → (i ≡ k) ⊎ Memᴰ i (keys d)
  unfolding put
  put-keys_inv k v [] m = elim (Memᴰ-cons_cases m) [ inl e ↦ inl e | inr n ↦ inr n ]
  put-keys_inv k v ((j, w) ∷ d) m = elim (Bool-cases (j == k)) [
    | inl same ↦ inr (rw same at m)
    | inr other ↦ elim (Memᴰ-cons_cases (rw other at m)) [
      | inl e ↦ inr (Memᴰ.head e)
      | inr n ↦ elim (put-keys_inv k v d n) [ inl e ↦ inl e | inr n' ↦ inr (Memᴰ.tail n') ]
    ]
  ]

  pub put-IsDistinct :
      (k : K) (v : V) (d : Dict K V) → IsDistinct (keys d) → IsDistinct (keys (put k v d))
  unfolding put
  put-IsDistinct k v [] h = (λ m. elim m [ ], tt)
  put-IsDistinct k v ((j, w) ∷ d) h = elim (Bool-cases (j == k)) [
    | inl same ↦ rw same h
    | inr other ↦ rw other (
      λ m. elim (put-keys_inv k v d m) [ inl e ↦ cc (other, (==_iff j k).1 e) | inr n ↦ h.0 n ],
      put-IsDistinct k v d h.1,
    )
  ]

  pub put-values_inv :
      {x : V} (k : K) (v : V) (d : Dict K V)
      → Memᴰ x (values (put k v d))
      → (x ≡ v) ⊎ Memᴰ x (values d)
  unfolding put
  put-values_inv k v [] m = elim (Memᴰ-cons_cases m) [ inl e ↦ inl e | inr n ↦ inr n ]
  put-values_inv k v ((j, w) ∷ d) m = elim (Bool-cases (j == k)) [
    | inl same ↦ elim (Memᴰ-cons_cases (rw same at m)) [ inl e ↦ inl e | inr n ↦ inr (Memᴰ.tail n) ]
    | inr other ↦ elim (Memᴰ-cons_cases (rw other at m)) [
      | inl e ↦ inr (Memᴰ.head e)
      | inr n ↦ elim (put-values_inv k v d n) [ inl e ↦ inl e | inr n' ↦ inr (Memᴰ.tail n') ]
    ]
  ]

  pub length-put-le : (k : K) (v : V) (d : Dict K V) → length d ≤ length (put k v d)
  unfolding put
  length-put-le k v [] = omega arith
  length-put-le k v ((j, w) ∷ d) = ground (arith, length-put-le k v d)

  pub get-Memᴰ : {v : V} (k : K) (d : Dict K V) → get k d ≡ some v → Memᴰ (k, v) d
  unfolding get
  get-Memᴰ k [] h = cc
  get-Memᴰ {v} k ((j, w) ∷ d) h = elim (Bool-cases (j == k)) [
    | inl same ↦
        let found : v ≡ w = ground arith in
        Memᴰ.head (ap₂ (λ a b. (a, b)) (sym ((==_iff j k).0 same)) found)
    | inr other ↦ Memᴰ.tail (get-Memᴰ k d (rw other at h))
  ]
