-- ===== src/Agent/Exec.antt =====
-- Actions on a mutable world that may raise: the world is kept where an exception leaves it.
use kuber.Base.{◌≡◌, refl, subst, ◌⊎◌, inl, inr, Option, none, some, String}
use kuber.Base.Result.{Result, Error, ok, raise, key_error, assertion_error, ok-injective, raise≢ok}

abbrev pub Exec : Type 0 → Type 0 → Type 0
Exec W A = W → Result A × W

infixl 5 ◌>>=◌ ◌>>◌
abbrev pub continue : {W A B : Type 0} → Result A → (A → Exec W B) → Exec W B
continue (ok a) f w = f a w
continue (raise e) f w = (raise e, w)

abbrev pub ◌>>=◌ : {W A B : Type 0} → Exec W A → (A → Exec W B) → Exec W B
◌>>=◌ m f w = continue (m w).0 f (m w).1

abbrev pub ◌>>◌ : {W A B : Type 0} → Exec W A → Exec W B → Exec W B
m >> k = m >>= λ _. k

abbrev pub pure : {W A : Type 0} → A → Exec W A
pure a w = (ok a, w)

abbrev pub lift : {W A : Type 0} → Result A → Exec W A
lift r w = (r, w)

-- `state["name"]`
abbrev pub item : {A : Type 0} → String → Option A → Result A
item name none = raise (key_error name)
item name (some a) = ok a

-- `assert value is not None`
abbrev pub assert_some : {A : Type 0} → Option A → Result A
assert_some none = raise assertion_error
assert_some (some a) = ok a

-- What holds of the value and the world where the action returns, and of the world where it raises.
abbrev pub Post : {W A : Type 0} → (A → W → Type 0) → (W → Type 0) → Result A × W → Type 0
Post Q R (ok a, w) = Q a w
Post Q R (raise e, w) = R w

pub Post-cases :
    {W A : Type 0} {P : A → W → Type 0} {R : W → Type 0} (r : Result A × W)
    → Post P R r
    → ((a : A) × (v : W) × (r ≡ (ok a, v)) × P a v)
      ⊎ ((e : Error) × (v : W) × (r ≡ (raise e, v)) × R v)
Post-cases (ok a, v) h = inl (a, v, refl, h)
Post-cases (raise e, v) h = inr (e, v, refl, h)

pub item_of : {A : Type 0} {o : Option A} {a : A} (name : String) → o ≡ some a → item name o ≡ ok a
item_of name same = rw same

pub assert_some_of : {A : Type 0} {o : Option A} {a : A} → o ≡ some a → assert_some o ≡ ok a
assert_some_of same = rw same refl

pub Post-returned :
    {W A : Type 0} (Q : A → W → Type 0) (R : W → Type 0) (r : Result A × W) {a : A}
    → Post Q R r
    → r.0 ≡ ok a
    → Q a r.1
Post-returned Q R (ok b, v) h same = subst (λ x. Q x v) (ok-injective same) h
Post-returned Q R (raise e, v) h same = absurd (raise≢ok same)

pub Post-returns :
    {W A : Type 0} (Q : A → W → Type 0) (r : Result A × W)
    → Post Q (λ w. ⊥) r
    → (a : A) × (r.0 ≡ ok a) × Q a r.1
Post-returns Q (ok a, v) h = (a, refl, h)
Post-returns Q (raise e, v) h = absurd h

-- Inversion of a block that returned.
pub bind_inv :
    {W A B : Type 0} (r : Result A) (v : W) (f : A → Exec W B) {b : B}
    → (continue r f v).0 ≡ ok b
    → (a : A) × (r ≡ ok a) × ((f a v).0 ≡ ok b)
bind_inv (ok a) v f h = (a, refl, h)
bind_inv (raise e) v f h = absurd (raise≢ok h)
