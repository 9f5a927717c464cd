-- ===== src/Base/Sort.antt =====
-- Python's `sorted(xs, key=…)`: a stable sort by a comparison of keys, and the order of tuples.
use Prim.Native.Nat.{ℕ, suc, ◌+◌, Ordering}
use Prim.Native.String.{String, compare}
use mathlib.Core.Path.{◌≡◌, refl, ap, sym, subst, ◌∙◌}
use mathlib.Core.Logic.{inl, inr}
use mathlib.Core.Bool.{Bool, true, false}
use mathlib.Core.List.{List, [], ◌∷◌, Memᴰ, Perm, map}
use mathlib.Core.List.Perm
use native.Mathlib.Omega.{arith}
use kuber.Base.Tests.{if◌then◌else◌, Bool-cases}
use kuber.Base.Lists.{IsDistinct, length, sum_of, Memᴰ-cons_cases, Memᴰ-map, Memᴰ-map_inv}
use kuber.Base.Order.{flip-compare}

-- The order of tuples of texts: by the first place where they differ.
abbrev after : Ordering → Bool → Bool
after Ordering.lt rest = true
after Ordering.eq rest = rest
after Ordering.gt rest = false

unfoldable pub tuple_leb : List String → List String → Bool
tuple_leb [] ts = true
tuple_leb (s ∷ ss) [] = false
tuple_leb (s ∷ ss) (t ∷ ts) = let rest = tuple_leb ss ts in after (compare s t) rest

-- Of two tuples one is at most the other.
pub tuple_leb_total : (ss ts : List String) → tuple_leb ss ts ≡ false → tuple_leb ts ss ≡ true
unfolding tuple_leb
tuple_leb_total [] ts h = cc
tuple_leb_total (s ∷ ss) [] h = refl
tuple_leb_total (s ∷ ss) (t ∷ ts) h = rw (flip-compare s t) (ground (arith, tuple_leb_total ss ts))

-- The order of texts.
abbrev pub at_most_text : String → String → Bool
at_most_text s t = elim (compare s t) [ Ordering.gt ↦ false | _ ↦ true ]

module _ {ℓ} {A : Type ℓ} (at_most : A → A → Bool) where
  insert : A → List A → List A
  insert x [] = x ∷ []
  insert x (y ∷ ys) = if at_most x y then x ∷ y ∷ ys else y ∷ insert x ys

  -- An item stands in front of those that follow it in the input and are not less.
  unfoldable pub sorted : List A → List A
  unfolding insert
  sorted [] = []
  sorted (x ∷ xs) = insert x (sorted xs)

  -- Neighbours are in order.
  abbrev pub IsSorted : List A → Type 0
  IsSorted [] = Unit
  IsSorted (x ∷ []) = Unit
  IsSorted (x ∷ y ∷ ys) = (at_most x y ≡ true) × IsSorted (y ∷ ys)

  Memᴰ-insert_inv : {z : A} (x : A) (ys : List A) → Memᴰ z (insert x ys) → Memᴰ z (x ∷ ys)
  unfolding insert
  Memᴰ-insert_inv x [] m = m
  Memᴰ-insert_inv x (y ∷ ys) m = elim (Bool-cases (at_most x y)) [
    | inl h ↦ rw h at m
    | inr h ↦ elim (Memᴰ-cons_cases (rw h at m)) [
      | inl e ↦ Memᴰ.tail (Memᴰ.head e)
      | inr n ↦ elim (Memᴰ-cons_cases (Memᴰ-insert_inv x ys n)) [
        | inl e ↦ Memᴰ.head e
        | inr k ↦ Memᴰ.tail (Memᴰ.tail k)
      ]
    ]
  ]

  insert-perm : (x : A) (ys : List A) → Perm (insert x ys) (x ∷ ys)
  unfolding insert
  insert-perm x [] = Perm.rfl
  insert-perm x (y ∷ ys) = elim (Bool-cases (at_most x y)) [
    | inl h ↦ rw h Perm.rfl
    | inr h ↦ rw h (Perm.trans (Perm.cons y (insert-perm x ys)) (Perm.swap x y ys))
  ]

  Memᴰ-insert : {z : A} (x : A) (ys : List A) → Memᴰ z (x ∷ ys) → Memᴰ z (insert x ys)
  unfolding insert
  Memᴰ-insert x [] m = m
  Memᴰ-insert x (y ∷ ys) m = elim (Bool-cases (at_most x y)) [
    | inl h ↦ rw h m
    | inr h ↦ rw h (elim (Memᴰ-cons_cases m) [
      | inl e ↦ Memᴰ.tail (Memᴰ-insert x ys (Memᴰ.head e))
      | inr n ↦ elim (Memᴰ-cons_cases n) [
        | inl e ↦ Memᴰ.head e
        | inr k ↦ Memᴰ.tail (Memᴰ-insert x ys (Memᴰ.tail k))
      ]
    ])
  ]

  pub Memᴰ-sorted_inv : {z : A} (xs : List A) → Memᴰ z (sorted xs) → Memᴰ z xs
  unfolding sorted
  Memᴰ-sorted_inv [] m = m
  Memᴰ-sorted_inv (x ∷ xs) m = elim (Memᴰ-cons_cases (Memᴰ-insert_inv x (sorted xs) m)) [
    | inl e ↦ Memᴰ.head e
    | inr n ↦ Memᴰ.tail (Memᴰ-sorted_inv xs n)
  ]

  pub Memᴰ-sorted : {z : A} (xs : List A) → Memᴰ z xs → Memᴰ z (sorted xs)
  unfolding sorted
  Memᴰ-sorted [] m = m
  Memᴰ-sorted (x ∷ xs) m = elim (Memᴰ-cons_cases m) [
    | inl e ↦ Memᴰ-insert x (sorted xs) (Memᴰ.head e)
    | inr n ↦ Memᴰ-insert x (sorted xs) (Memᴰ.tail (Memᴰ-sorted xs n))
  ]

  pub sorted_perm : (xs : List A) → Perm (sorted xs) xs
  unfolding sorted
  sorted_perm [] = Perm.rfl
  sorted_perm (x ∷ xs) = Perm.trans (insert-perm x (sorted xs)) (Perm.cons x (sorted_perm xs))

  length-insert : (x : A) (ys : List A) → length (insert x ys) ≡ suc (length ys)
  unfolding insert
  length-insert x [] = refl
  length-insert x (y ∷ ys) = ground (arith, length-insert x ys)

  pub length-sorted : (xs : List A) → length (sorted xs) ≡ length xs
  unfolding sorted
  length-sorted [] = refl
  length-sorted (x ∷ xs) = length-insert x (sorted xs) ∙ ap suc (length-sorted xs)

  sum_of-insert : (f : A → ℕ) (x : A) (ys : List A) → sum_of f (insert x ys) ≡ f x + sum_of f ys
  unfolding insert
  sum_of-insert f x [] = refl
  sum_of-insert f x (y ∷ ys) = ground (arith, sum_of-insert f x ys)

  pub sum_of-sorted : (f : A → ℕ) (xs : List A) → sum_of f (sorted xs) ≡ sum_of f xs
  unfolding sorted
  sum_of-sorted f [] = refl
  sum_of-sorted f (x ∷ xs) = omega (arith, sum_of-insert f x (sorted xs), sum_of-sorted f xs)

  -- The sort leaves a list alone whose neighbours are in order.
  pub sorted_of_IsSorted : (xs : List A) → IsSorted xs → sorted xs ≡ xs
  unfolding sorted
  sorted_of_IsSorted [] h = refl
  sorted_of_IsSorted (x ∷ []) h = refl
  sorted_of_IsSorted (x ∷ y ∷ ys) h = rw (sorted_of_IsSorted (y ∷ ys) h.1, insert, h.0)

  module _ (total : (x y : A) → at_most x y ≡ false → at_most y x ≡ true) where
    insert-IsSorted : (x : A) (ys : List A) → IsSorted ys → IsSorted (insert x ys)
    unfolding insert
    insert-IsSorted x [] h = tt
    insert-IsSorted x (y ∷ []) h = elim (Bool-cases (at_most x y)) [
      | inl k ↦ rw k (k, tt)
      | inr k ↦ rw k (total x y k, tt)
    ]
    insert-IsSorted x (y ∷ z ∷ zs) h = elim (Bool-cases (at_most x y)) [
      | inl k ↦ rw k (k, h)
      | inr k ↦
          let rest = insert-IsSorted x (z ∷ zs) h.1 in
          elim (Bool-cases (at_most x z)) [
            | inl l ↦ rw (k, l) (total x y k, rw l at rest)
            | inr l ↦ rw (k, l) (h.0, rw l at rest)
          ]
    ]

    pub sorted-IsSorted : (xs : List A) → IsSorted (sorted xs)
    unfolding sorted
    sorted-IsSorted [] = tt
    sorted-IsSorted (x ∷ xs) = insert-IsSorted x (sorted xs) (sorted-IsSorted xs)

module _ {ℓ κ} {A : Type ℓ} {K : Type κ} (key : A → K) (at_most : A → A → Bool) where
  insert-IsDistinct :
      (x : A) (ys : List A)
      → IsDistinct (map key (x ∷ ys))
      → IsDistinct (map key (insert at_most x ys))
  unfolding insert
  insert-IsDistinct x [] h = h
  insert-IsDistinct x (y ∷ ys) h = elim (Bool-cases (at_most x y)) [
    | inl k ↦ rw k h
    | inr k ↦ rw k (
      λ m.
          let (z, n, same) = Memᴰ-map_inv key (insert at_most x ys) m in
          elim (Memᴰ-cons_cases (Memᴰ-insert_inv at_most x ys n)) [
            | inl here ↦ h.0 (Memᴰ.head (sym (same ∙ ap key here)))
            | inr there ↦ h.1.0 (subst (λ k'. Memᴰ k' (map key ys)) (sym same) (Memᴰ-map key there))
          ],
      insert-IsDistinct x ys (λ m. h.0 (Memᴰ.tail m), h.1.1),
    )
  ]

  pub sorted-IsDistinct :
      (xs : List A) → IsDistinct (map key xs) → IsDistinct (map key (sorted at_most xs))
  unfolding sorted
  sorted-IsDistinct [] h = h
  sorted-IsDistinct (x ∷ xs) h = insert-IsDistinct x (sorted at_most xs) (
    λ m.
        let (z, n, same) = Memᴰ-map_inv key (sorted at_most xs) m in
        h.0 (
          subst (λ k. Memᴰ k (map key xs)) (sym same)
            (Memᴰ-map key (Memᴰ-sorted_inv at_most xs n))),
    sorted-IsDistinct xs h.1,
  )
