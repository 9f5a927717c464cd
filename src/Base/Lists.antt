-- ===== src/Base/Lists.antt =====
-- Lists: Python's `any`, `all`, `len`, comprehensions with a test, and membership that keeps its witness.
use Prim.Native.Nat.{ℕ, zero, suc, ◌+◌}
use mathlib.Core.Path.{◌≡◌, refl, ap, subst}
use mathlib.Core.Logic.{◌⊎◌, inl, inr}
use mathlib.Core.Bool.{Bool, true, false, ◌&&◌, ◌||◌}
use mathlib.Core.Option.{Option, none, some}
use mathlib.Core.List.{List, [], ◌∷◌, ◌++◌, map, Memᴰ}
use native.Mathlib.Omega.{arith}
use kuber.Base.Tests.{if◌then◌else◌, Bool-cases}

-- No item occurs twice.
abbrev pub IsDistinct {ℓ} : {A : Type ℓ} → List A → Type ℓ
IsDistinct [] = Unit
IsDistinct (x ∷ xs) = (¬ Memᴰ x xs) × IsDistinct xs

module _ {ℓ} {A : Type ℓ} where
  abbrev pub length : List A → ℕ
  length [] = 0
  length (x ∷ xs) = suc (length xs)

  -- `xs[n:]`
  abbrev pub drop : ℕ → List A → List A
  drop zero xs = xs
  drop (suc n) [] = []
  drop (suc n) (x ∷ xs) = drop n xs

  abbrev pub any : (A → Bool) → List A → Bool
  any p [] = false
  any p (x ∷ xs) = p x || any p xs

  abbrev pub all : (A → Bool) → List A → Bool
  all p [] = true
  all p (x ∷ xs) = p x && all p xs

  -- `next((x for x in xs if p(x)), None)`
  abbrev pub find : (A → Bool) → List A → Option A
  find p [] = none
  find p (x ∷ xs) = if p x then some x else find p xs

  -- `[x for x in xs if p(x)]`
  abbrev pub filter : (A → Bool) → List A → List A
  filter p [] = []
  filter p (x ∷ xs) = let rest = filter p xs in if p x then x ∷ rest else rest

  abbrev pub sum_of : (A → ℕ) → List A → ℕ
  sum_of f [] = 0
  sum_of f (x ∷ xs) = f x + sum_of f xs

  pub length-append : (xs ys : List A) → length (xs ++ ys) ≡ length xs + length ys
  length-append [] ys = omega arith
  length-append (x ∷ xs) ys = omega (arith, length-append xs ys)

  pub Memᴰ-cons_cases : {x y : A} {ys : List A} → Memᴰ x (y ∷ ys) → (x ≡ y) ⊎ Memᴰ x ys
  Memᴰ-cons_cases (Memᴰ.head e) = inl e
  Memᴰ-cons_cases (Memᴰ.tail m) = inr m

  pub any-intro : (p : A → Bool) {x : A} {xs : List A} → Memᴰ x xs → p x ≡ true → any p xs ≡ true
  any-intro p (Memᴰ.head e) h = rw (← e, h)
  any-intro p (Memᴰ.tail m) h = ground (arith, any-intro p m h)

  pub any-elim : (p : A → Bool) (xs : List A) → any p xs ≡ true → (x : A) × Memᴰ x xs × (p x ≡ true)
  any-elim p [] h = cc
  any-elim p (x ∷ xs) h = elim (Bool-cases (p x)) [
    | inl e ↦ (x, Memᴰ.head refl, e)
    | inr e ↦ let (y, m, k) = any-elim p xs (rw e at h) in (y, Memᴰ.tail m, k)
  ]

  pub all-elim : (p : A → Bool) {x : A} {xs : List A} → Memᴰ x xs → all p xs ≡ true → p x ≡ true
  all-elim p (Memᴰ.head e) h = rw e (ground arith)
  all-elim p (Memᴰ.tail m) h = all-elim p m (ground arith)

  pub all-intro :
      (p : A → Bool) (xs : List A) → ((x : A) → Memᴰ x xs → p x ≡ true) → all p xs ≡ true
  all-intro p [] h = refl
  all-intro p (x ∷ xs) h =
      ground (arith, h x (Memᴰ.head refl), all-intro p xs (λ y m. h y (Memᴰ.tail m)))

  pub any-append : (p : A → Bool) (xs ys : List A) → any p (xs ++ ys) ≡ (any p xs || any p ys)
  any-append p [] ys = refl
  any-append p (x ∷ xs) ys = ground (arith, any-append p xs ys)

  pub any_congr :
      (p q : A → Bool) (xs : List A) → ((x : A) → Memᴰ x xs → p x ≡ q x) → any p xs ≡ any q xs
  any_congr p q [] h = refl
  any_congr p q (x ∷ xs) h = cc (h x (Memᴰ.head refl), any_congr p q xs (λ y m. h y (Memᴰ.tail m)))

  pub Memᴰ-append_left : {x : A} {xs : List A} (ys : List A) → Memᴰ x xs → Memᴰ x (xs ++ ys)
  Memᴰ-append_left ys (Memᴰ.head e) = Memᴰ.head e
  Memᴰ-append_left ys (Memᴰ.tail m) = Memᴰ.tail (Memᴰ-append_left ys m)

  pub Memᴰ-append_right : {x : A} (xs : List A) {ys : List A} → Memᴰ x ys → Memᴰ x (xs ++ ys)
  Memᴰ-append_right [] m = m
  Memᴰ-append_right (y ∷ xs) m = Memᴰ.tail (Memᴰ-append_right xs m)

  pub Memᴰ-append_cases :
      {x : A} (xs : List A) {ys : List A} → Memᴰ x (xs ++ ys) → Memᴰ x xs ⊎ Memᴰ x ys
  Memᴰ-append_cases [] m = inr m
  Memᴰ-append_cases (y ∷ xs) (Memᴰ.head e) = inl (Memᴰ.head e)
  Memᴰ-append_cases (y ∷ xs) (Memᴰ.tail m) = elim (Memᴰ-append_cases xs m) [
    | inl l ↦ inl (Memᴰ.tail l)
    | inr r ↦ inr r
  ]

  pub filter-intro :
      (p : A → Bool) {x : A} {xs : List A} → Memᴰ x xs → p x ≡ true → Memᴰ x (filter p xs)
  filter-intro p (Memᴰ.head e) h = rw (← e, h) (Memᴰ.head refl)
  filter-intro p (Memᴰ.tail {x = y} m) h = elim (Bool-cases (p y)) [
    | inl k ↦ rw k (Memᴰ.tail (filter-intro p m h))
    | inr k ↦ rw k (filter-intro p m h)
  ]

  pub filter-elim :
      (p : A → Bool) {x : A} (xs : List A) → Memᴰ x (filter p xs) → Memᴰ x xs × (p x ≡ true)
  filter-elim p [] m = elim m [ ]
  filter-elim p {x} (y ∷ ys) m = elim (Bool-cases (p y)) [
    | inl k ↦ elim (Memᴰ-cons_cases (rw k at m)) [
      | inl e ↦ (Memᴰ.head e, rw e k)
      | inr n ↦ let (n', h) = filter-elim p ys n in (Memᴰ.tail n', h)
    ]
    | inr k ↦ let (n, h) = filter-elim p ys (rw k at m) in (Memᴰ.tail n, h)
  ]

module _ {ℓ κ} {A : Type ℓ} {B : Type κ} where
  pub any-map : (p : B → Bool) (f : A → B) (xs : List A) → any p (map f xs) ≡ any (λ x. p (f x)) xs
  any-map p f [] = refl
  any-map p f (x ∷ xs) = rw (any-map p f xs)

  pub Memᴰ-map : (f : A → B) {x : A} {xs : List A} → Memᴰ x xs → Memᴰ (f x) (map f xs)
  Memᴰ-map f (Memᴰ.head e) = Memᴰ.head (ap f e)
  Memᴰ-map f (Memᴰ.tail m) = Memᴰ.tail (Memᴰ-map f m)

  pub Memᴰ-map_inv :
      (f : A → B) {y : B} (xs : List A) → Memᴰ y (map f xs) → (x : A) × Memᴰ x xs × (y ≡ f x)
  Memᴰ-map_inv f [] m = elim m [ ]
  Memᴰ-map_inv f (x ∷ xs) (Memᴰ.head e) = (x, Memᴰ.head refl, e)
  Memᴰ-map_inv f (x ∷ xs) (Memᴰ.tail m) = let (z, n, e) = Memᴰ-map_inv f xs m in (z, Memᴰ.tail n, e)

  -- `[y for x in xs for y in f(x)]`
  abbrev pub flat_map : (A → List B) → List A → List B
  flat_map f [] = []
  flat_map f (x ∷ xs) = f x ++ flat_map f xs

  pub Memᴰ-flat_map :
      (f : A → List B) {x : A} {y : B} {xs : List A}
      → Memᴰ x xs
      → Memᴰ y (f x)
      → Memᴰ y (flat_map f xs)
  Memᴰ-flat_map f {y = y} (Memᴰ.head e) m = Memᴰ-append_left _ (subst (λ w. Memᴰ y (f w)) e m)
  Memᴰ-flat_map f (Memᴰ.tail {x = z} n) m = Memᴰ-append_right (f z) (Memᴰ-flat_map f n m)

  pub Memᴰ-flat_map_inv :
      (f : A → List B) {y : B} (xs : List A)
      → Memᴰ y (flat_map f xs)
      → (x : A) × Memᴰ x xs × Memᴰ y (f x)
  Memᴰ-flat_map_inv f [] m = elim m [ ]
  Memᴰ-flat_map_inv f (x ∷ xs) m = elim (Memᴰ-append_cases (f x) m) [
    | inl l ↦ (x, Memᴰ.head refl, l)
    | inr r ↦ let (z, n, k) = Memᴰ-flat_map_inv f xs r in (z, Memᴰ.tail n, k)
  ]
