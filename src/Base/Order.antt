-- ===== src/Base/Order.antt =====
-- The order of texts, read from the other side.
use Prim.Native.Nat.{ℕ, Ordering, compare as compare_ℕ}
use Prim.Native.Char.{code}
use Prim.Native.String.{String, compare, then}
use Prim.Native.String.compare
use mathlib.Core.Path.{◌≡◌, refl}
use native.Mathlib.Omega.{arith}

-- the comparison the other way round
abbrev flip : Ordering → Ordering
flip Ordering.lt = Ordering.gt
flip Ordering.eq = Ordering.eq
flip Ordering.gt = Ordering.lt

flip-compare_ℕ : (m n : ℕ) → compare_ℕ n m ≡ flip (compare_ℕ m n)
flip-compare_ℕ m n = ground arith

flip-then : (o p : Ordering) → flip (then o p) ≡ then (flip o) (flip p)
flip-then Ordering.lt p = refl
flip-then Ordering.eq p = refl
flip-then Ordering.gt p = refl

pub flip-compare : (s t : String) → compare t s ≡ flip (compare s t)
flip-compare String.[] String.[] = rw compare.nil-nil
flip-compare String.[] (String.◌∷◌ d t) = rw (compare.nil-cons, compare.cons-nil)
flip-compare (String.◌∷◌ c s) String.[] = rw (compare.nil-cons, compare.cons-nil)
flip-compare (String.◌∷◌ c s) (String.◌∷◌ d t) = rw (
  compare.cons-cons c d s t,
  compare.cons-cons d c t s,
  flip-then,
  flip-compare_ℕ (code c) (code d),
  flip-compare s t,
)
