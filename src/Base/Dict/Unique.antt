-- ===== src/Base/Dict/Unique.antt =====
-- The values of `{key(x): x for x in xs}`: for each key the last item that has it, in the place of
-- the first.
use Prim.Native.Nat.{suc, ◌≤◌, ◌<◌}
use mathlib.Core.Path.{◌≡◌, refl, ap, ap₂, sym, ◌∙◌, subst}
use mathlib.Core.Logic.{◌⊎◌, inl, inr}
use mathlib.Core.List.{List, [], ◌∷◌, ◌++◌, map, Memᴰ, append-nil, append_assoc}
use mathlib.Core.Bool.{false≢true}
use native.Mathlib.Omega.{arith}
use native.Mathlib.Nat.{le_trans}
use kuber.Base.Tests.{Bool-cases}
use kuber.Base.Equality.{Eq, ◌==◌, ==_iff}
use kuber.Base.Lists.{IsDistinct, length, length-append, Memᴰ-cons_cases, Memᴰ-map, Memᴰ-map_inv}
use kuber.Base.Dict.{
  Dict, keys, values, put, put_new, put-keys_inv, put-IsDistinct, put-values_inv, length-put-le,
}

module _ {ℓ κ} {A : Type ℓ} {K : Type κ} ⦃e : Eq K⦄ (key : A → K) where
  index_from : Dict K A → List A → Dict K A
  index_from d [] = d
  index_from d (x ∷ xs) = index_from (put (key x) x d) xs

  unfoldable pub unique : List A → List A
  unfolding index_from
  unique xs = values (index_from [] xs)

  -- Each value stands under its own key.
  abbrev IsKeyed : Dict K A → Type κ
  IsKeyed [] = Unit
  IsKeyed ((k, x) ∷ d) = (k ≡ key x) × IsKeyed d

  keys_of_IsKeyed : (d : Dict K A) → IsKeyed d → keys d ≡ map key (values d)
  keys_of_IsKeyed [] h = refl
  keys_of_IsKeyed ((k, x) ∷ d) h = ap₂ (λ a b. a ∷ b) h.0 (keys_of_IsKeyed d h.1)

  put-IsKeyed : (x : A) (d : Dict K A) → IsKeyed d → IsKeyed (put (key x) x d)
  unfolding put
  put-IsKeyed x [] h = (refl, tt)
  put-IsKeyed x ((j, w) ∷ d) h = elim (Bool-cases (j == key x)) [
    | inl same ↦ rw same ((==_iff j (key x)).0 same, h.1)
    | inr other ↦ rw other (h.0, put-IsKeyed x d h.1)
  ]

  index_from-inv :
      (d : Dict K A) (xs : List A)
      → IsDistinct (keys d)
      → IsKeyed d
      → IsDistinct (keys (index_from d xs)) × IsKeyed (index_from d xs)
  unfolding index_from
  index_from-inv d [] h k = (h, k)
  index_from-inv d (x ∷ xs) h k =
      index_from-inv (put (key x) x d) xs (put-IsDistinct (key x) x d h) (put-IsKeyed x d k)

  index_from-append :
      (d : Dict K A) (xs ys : List A) → index_from d (xs ++ ys) ≡ index_from (index_from d xs) ys
  unfolding index_from
  index_from-append d [] ys = refl
  index_from-append d (x ∷ xs) ys = index_from-append (put (key x) x d) xs ys

  index_from-values_inv :
      {y : A} (d : Dict K A) (xs : List A)
      → Memᴰ y (values (index_from d xs))
      → Memᴰ y (values d) ⊎ Memᴰ y xs
  unfolding index_from
  index_from-values_inv d [] m = inl m
  index_from-values_inv d (x ∷ xs) m = elim (index_from-values_inv (put (key x) x d) xs m) [
    | inl l ↦ elim (put-values_inv (key x) x d l) [ inl h ↦ inr (Memᴰ.head h) | inr n ↦ inl n ]
    | inr r ↦ inr (Memᴰ.tail r)
  ]

  put-covers : {k : K} (x : A) (d : Dict K A) → Memᴰ k (keys d) → Memᴰ k (keys (put (key x) x d))
  unfolding put
  put-covers x [] m = elim m [ ]
  put-covers x ((j, w) ∷ d) m = elim (Bool-cases (j == key x)) [
    | inl same ↦ rw same m
    | inr other ↦
        rw other
          (elim (Memᴰ-cons_cases m) [ inl h ↦ Memᴰ.head h | inr n ↦ Memᴰ.tail (put-covers x d n) ])
  ]

  put-keys : (x : A) (d : Dict K A) → Memᴰ (key x) (keys (put (key x) x d))
  unfolding put
  put-keys x [] = Memᴰ.head refl
  put-keys x ((j, w) ∷ d) = elim (Bool-cases (j == key x)) [
    | inl same ↦ rw same (Memᴰ.head (sym ((==_iff j (key x)).0 same)))
    | inr other ↦ rw other (Memᴰ.tail (put-keys x d))
  ]

  index_from-covers_old :
      {k : K} (d : Dict K A) (xs : List A) → Memᴰ k (keys d) → Memᴰ k (keys (index_from d xs))
  unfolding index_from
  index_from-covers_old d [] m = m
  index_from-covers_old d (x ∷ xs) m = index_from-covers_old (put (key x) x d) xs (put-covers x d m)

  index_from-covers :
      {x : A} (d : Dict K A) (xs : List A) → Memᴰ x xs → Memᴰ (key x) (keys (index_from d xs))
  unfolding index_from
  index_from-covers d [] m = elim m [ ]
  index_from-covers {x} d (y ∷ ys) m = elim (Memᴰ-cons_cases m) [
    | inl h ↦ index_from-covers_old (put (key y) y d) ys (rw h (put-keys y d))
    | inr n ↦ index_from-covers (put (key y) y d) ys n
  ]

  values-append : (d d' : Dict K A) → values (d ++ d') ≡ values d ++ values d'
  values-append [] d' = refl
  values-append ((k, x) ∷ d) d' = ap (λ t. x ∷ t) (values-append d d')

  index_from_new :
      (d : Dict K A) (xs : List A)
      → IsDistinct (map key xs)
      → ((x : A) → Memᴰ x xs → ¬ Memᴰ (key x) (keys d))
      → values (index_from d xs) ≡ values d ++ xs
  unfolding index_from
  index_from_new d [] h fresh = sym (append-nil (values d))
  index_from_new d (x ∷ xs) h fresh =
      index_from_new (put (key x) x d) xs h.1 still_fresh
      ∙ ap (λ t. t ++ xs) (ap values appended ∙ values-append d ((key x, x) ∷ []))
      ∙ append_assoc (values d) (x ∷ []) xs
    where
      appended : put (key x) x d ≡ d ++ (key x, x) ∷ []
      appended = put_new (key x) x d (fresh x (Memᴰ.head refl))

      still_fresh : (z : A) → Memᴰ z xs → ¬ Memᴰ (key z) (keys (put (key x) x d))
      still_fresh z m n = elim (put-keys_inv (key x) x d n) [
        | inl same ↦ h.0 (subst (λ k. Memᴰ k (map key xs)) same (Memᴰ-map key m))
        | inr old ↦ fresh z (Memᴰ.tail m) old
      ]

  length-index_from-le : (d : Dict K A) (xs : List A) → length d ≤ length (index_from d xs)
  unfolding index_from
  length-index_from-le d [] = omega arith
  length-index_from-le d (x ∷ xs) =
      le_trans (length-put-le (key x) x d) (length-index_from-le (put (key x) x d) xs)

  length-put_new :
      (x : A) (d : Dict K A) → ¬ Memᴰ (key x) (keys d) → length d < length (put (key x) x d)
  length-put_new x d h =
      rw (put_new (key x) x d h) (omega (arith, length-append d ((key x, x) ∷ [])))

  -- An item with a new key makes the dictionary grow.
  length-index_from-lt :
      {y : A} (d : Dict K A) (xs : List A)
      → Memᴰ y xs
      → ¬ Memᴰ (key y) (keys d)
      → length d < length (index_from d xs)
  unfolding index_from
  length-index_from-lt d [] m h = elim m [ ]
  length-index_from-lt {y} d (x ∷ xs) m h = elim (Bool-cases (key x == key y)) [
    | inl same ↦
        le_trans
          (length-put_new x d (λ n. h (subst (λ k. Memᴰ k (keys d)) ((==_iff _ _).0 same) n)))
          (length-index_from-le (put (key x) x d) xs)
    | inr other ↦ elim (Memᴰ-cons_cases m) [
      | inl here ↦ absurd (false≢true (sym other ∙ (==_iff _ _).1 (ap key (sym here))))
      | inr later ↦ omega (
        arith,
        length-put-le (key x) x d,
        length-index_from-lt (put (key x) x d) xs later (λ n. elim (put-keys_inv (key x) x d n) [
          | inl same ↦ false≢true (sym other ∙ (==_iff _ _).1 (sym same))
          | inr old ↦ h old
        ]),
      )
    ]
  ]

  length-values : (d : Dict K A) → length (values d) ≡ length d
  length-values [] = refl
  length-values (x ∷ d) = ap suc (length-values d)

  pub unique-IsDistinct : (xs : List A) → IsDistinct (map key (unique xs))
  unfolding unique
  unique-IsDistinct xs =
      let (distinct, keyed) = index_from-inv [] xs tt tt in
      subst IsDistinct (keys_of_IsKeyed (index_from [] xs) keyed) distinct

  pub unique-subset : {y : A} (xs : List A) → Memᴰ y (unique xs) → Memᴰ y xs
  unfolding unique
  unique-subset xs m = elim (index_from-values_inv [] xs m) [ inl l ↦ elim l [ ] | inr r ↦ r ]

  pub unique-covers :
      {x : A} (xs : List A) → Memᴰ x xs → (y : A) × Memᴰ y (unique xs) × (key x ≡ key y)
  unfolding unique
  unique-covers xs m =
      let (distinct, keyed) = index_from-inv [] xs tt tt in
      Memᴰ-map_inv key (values (index_from [] xs)) (
        subst (Memᴰ (key _)) (keys_of_IsKeyed (index_from [] xs) keyed) (index_from-covers [] xs m))

  pub unique_of_distinct : (xs : List A) → IsDistinct (map key xs) → unique xs ≡ xs
  unfolding unique
  unique_of_distinct xs h = index_from_new [] xs h (λ x m n. elim n [ ])

  pub length-unique-lt :
      {y : A} (xs ys : List A)
      → IsDistinct (map key xs)
      → Memᴰ y ys
      → ¬ Memᴰ (key y) (map key xs)
      → length xs < length (unique (xs ++ ys))
  unfolding unique
  length-unique-lt xs ys h m fresh =
      let d = index_from [] xs in
      let (distinct, keyed) = index_from-inv [] xs tt tt in
      let same : values d ≡ xs = unique_of_distinct xs h in
      let absent : ¬ Memᴰ (key _) (keys d) =
        λ n. fresh (subst (Memᴰ (key _)) (keys_of_IsKeyed d keyed ∙ ap (map key) same) n) in
      rw index_from-append (
        omega (
          arith,
          length-index_from-lt d ys m absent,
          length-values d,
          ap length same,
          length-values (index_from d ys),
        ))
