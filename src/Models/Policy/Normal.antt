-- ===== src/Models/Policy/Normal.antt =====
-- The normal form of a policy's permissions.
use kuber.Base.{
  ◌<◌, ◌≡◌, ap, sym, ◌∙◌, Bool, List, ◌++◌, map, Memᴰ, string_eq, option_eq, list_eq, bool_ext,
  arith,
}
use kuber.Base.Lists.{length, any, any-intro, any-elim, IsDistinct}
use kuber.Base.Dict.Unique.{
  unique, unique-subset, unique-covers, unique-IsDistinct, unique_of_distinct, length-unique-lt,
}
use kuber.Base.Sort.{
  sorted, IsSorted, tuple_leb_total, Memᴰ-sorted, Memᴰ-sorted_inv, length-sorted, sorted-IsSorted,
  sorted_of_IsSorted, sorted-IsDistinct,
}
use kuber.Models.Permission.{Permission, key, SameCapability, SameCapability-of_key}
use kuber.Models.Policy.{at_most, sort_key, normalise}

-- What the constructor of `Policy` guarantees.
pub record IsNormal (ps : List Permission) : Type 0 where
  pub distinct : IsDistinct (map key ps)
  pub in_order : IsSorted at_most ps

-- The permissions that the constructor of a policy sets are in normal form: no capability
-- occurs twice, and neighbours are in order.
pub normalise-IsNormal : (ps : List Permission) → IsNormal (normalise ps)
unfolding normalise
normalise-IsNormal ps = record {
  distinct = sorted-IsDistinct key at_most (unique key ps) (unique-IsDistinct key ps);
  in_order =
      sorted-IsSorted at_most (λ p q. tuple_leb_total (sort_key p) (sort_key q)) (unique key ps);
}

-- Permissions in normal form are their own normal form.
pub normalise_of_IsNormal : (ps : List Permission) → IsNormal ps → normalise ps ≡ ps
unfolding normalise
normalise_of_IsNormal ps n =
    ap (sorted at_most) (unique_of_distinct key ps n.distinct)
    ∙ sorted_of_IsSorted at_most ps n.in_order

-- Nothing is added.
pub normalise-subset : {p : Permission} (ps : List Permission) → Memᴰ p (normalise ps) → Memᴰ p ps
unfolding normalise
normalise-subset ps m = unique-subset key ps (Memᴰ-sorted_inv at_most (unique key ps) m)

-- No capability is lost.
pub normalise-covers :
    {p : Permission} (ps : List Permission)
    → Memᴰ p ps
    → (q : Permission) × Memᴰ q (normalise ps) × SameCapability p q
unfolding normalise
normalise-covers ps m =
    let (q, n, same) = unique-covers key ps m in
    (q, Memᴰ-sorted at_most (unique key ps) n, SameCapability-of_key _ q same)

-- A test that reads the capability alone gives the same answer on the normal form.
pub any-normalise :
    (test : Permission → Bool) (ps : List Permission)
    → ((p q : Permission) → SameCapability p q → test p ≡ test q)
    → any test (normalise ps) ≡ any test ps
any-normalise test ps respects =
    bool_ext _ _
      (λ h.
        let (p, m, passes) = any-elim test (normalise ps) h in
        any-intro test (normalise-subset ps m) passes)
      (λ h.
        let (p, m, passes) = any-elim test ps h in
        let (q, n, same) = normalise-covers ps m in
        any-intro test n (sym (respects p q same) ∙ passes))

-- Permissions with a new capability make a policy grow.
pub length-normalise-lt :
    {p : Permission} (ps qs : List Permission)
    → IsNormal ps
    → Memᴰ p qs
    → ¬ Memᴰ (key p) (map key ps)
    → length ps < length (normalise (ps ++ qs))
unfolding normalise
length-normalise-lt ps qs n m new = omega (
  arith,
  length-unique-lt key ps qs n.distinct m new,
  length-sorted at_most (unique key (ps ++ qs)),
)
