-- ===== src/Base/Result.antt =====
-- Exceptions as values: what a function that may raise returns, with the class of the exception
-- and its message.
use mathlib.Core.Path.{◌≡◌, refl, sym, ap₂, subst, ◌∙◌}
use mathlib.Core.Logic.{◌≢◌, ◌⊎◌, inl, inr}
use Prim.Native.String.{String}
use mathlib.Core.List.{List, [], ◌∷◌, Memᴰ, map}
use kuber.Base.Lists.{Memᴰ-cons_cases}

pub data Error : Type 0 where
  value_error key_error runtime_error safety_error type_error : String → Error
  assertion_error : Error
  recursion_limit_reached timeout_error stop_iteration : Error
  dry_run_error : String → Error
  -- An exception of any other class, with its class and its text.
  other_error : String → String → Error

pub data Result {ℓ} (A : Type ℓ) : Type ℓ where
  ok : A → Result A
  raise : Error → Result A

infixl 5 ◌>>=◌ ◌>>◌
abbrev pub ◌>>=◌ {ℓ κ} : {A : Type ℓ} {B : Type κ} → Result A → (A → Result B) → Result B
ok a >>= f = f a
raise e >>= f = raise e

abbrev pub ◌>>◌ {ℓ κ} : {A : Type ℓ} {B : Type κ} → Result A → Result B → Result B
m >> k = m >>= λ _. k

pub ok-injective {ℓ} : {A : Type ℓ} {a b : A} → ok a ≡ ok b → a ≡ b
ok-injective h = cc

pub raise-injective {ℓ} :
    {A : Type ℓ} {e f : Error} → ◌≡◌ {A = Result A} (raise e) (raise f) → e ≡ f
raise-injective h = cc

pub raise≢ok {ℓ} : {A : Type ℓ} {e : Error} {a : A} → ◌≢◌ {A = Result A} (raise e) (ok a)
raise≢ok h = cc

-- Inversion of a block that returned.
pub >>=-eq-ok {ℓ κ} :
    {A : Type ℓ} {B : Type κ} (first : Result A) (next : A → Result B) {answer : B}
    → (first >>= next) ≡ ok answer
    → (a : A) × (first ≡ ok a) × (next a ≡ ok answer)
>>=-eq-ok (ok a) next returns = (a, refl, returns)
>>=-eq-ok (raise e) next returns = absurd (raise≢ok returns)

-- `tuple(f(x) for x in xs)`, where `f` may raise
unfoldable pub map_result {ℓ κ} :
    {A : Type ℓ} {B : Type κ} → (A → Result B) → List A → Result (List B)
map_result f [] = ok []
map_result f (x ∷ xs) = do y ← f x; ys ← map_result f xs; ok (y ∷ ys)

-- A loop that may raise, over items on which it does not.
pub map_result-eq-ok {ℓ κ} :
    {A : Type ℓ} {B : Type κ} (f : A → Result B) (g : A → B) (xs : List A)
    → ((x : A) → Memᴰ x xs → f x ≡ ok (g x))
    → map_result f xs ≡ ok (map g xs)
unfolding map_result
map_result-eq-ok f g [] h = refl
map_result-eq-ok f g (x ∷ xs) h =
    rw (h x (Memᴰ.head refl), map_result-eq-ok f g xs (λ y m. h y (Memᴰ.tail m)))

-- The results of a loop that did not raise stand for the items one by one.
pub map_result_inv {ℓ κ} :
    {A : Type ℓ} {B : Type κ} (f : A → Result B) (g : A → B) (P : A → Type 0) (xs : List A)
    {ys : List B}
    → ((x : A) (y : B) → f x ≡ ok y → P x × (y ≡ g x))
    → map_result f xs ≡ ok ys
    → (ys ≡ map g xs) × ((x : A) → Memᴰ x xs → P x)
unfolding map_result
map_result_inv f g P [] one h = (sym (ok-injective h), λ x m. elim m [ ])
map_result_inv f g P (x ∷ xs) one h =
    let (y, hx, h') = >>=-eq-ok (f x) _ h in
    let (ys', hxs, h'') = >>=-eq-ok (map_result f xs) _ h' in
    let (px, same) = one x y hx in
    let (rest, pxs) = map_result_inv f g P xs one hxs in
    (
      sym (ok-injective h'') ∙ ap₂ (λ a b. a ∷ b) same rest,
      λ z m. elim (Memᴰ-cons_cases m) [
        | inl here ↦ subst P (sym here) px
        | inr there ↦ pxs z there
      ],
    )

abbrev pub map_ok {ℓ κ} : {A : Type ℓ} {B : Type κ} → (A → B) → Result A → Result B
map_ok f (ok a) = ok (f a)
map_ok f (raise e) = raise e

-- Every exception that comes out is a `ValueError`.
abbrev pub RaisesValueError : {A : Type 0} → Result A → Type 0
RaisesValueError (ok a) = Unit {0}
RaisesValueError (raise e) = (message : String) × (e ≡ value_error message)

pub RaisesValueError-bind :
    {A B : Type 0} (r : Result A) (f : A → Result B)
    → RaisesValueError r
    → ((a : A) → RaisesValueError (f a))
    → RaisesValueError (r >>= f)
RaisesValueError-bind (ok a) f h k = k a
RaisesValueError-bind (raise e) f h k = h

pub Result-cases {ℓ} :
    {A : Type ℓ} (r : Result A) → ((a : A) × (r ≡ ok a)) ⊎ ((e : Error) × (r ≡ raise e))
Result-cases (ok a) = inl (a, refl)
Result-cases (raise e) = inr (e, refl)
