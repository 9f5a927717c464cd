-- ===== src/Event/Locks.antt =====
-- event_layer/locks.py: the key of a workload's lock.
use Prim.Native.String
use Prim.Native.Char.{Char, char, code}
use text.Mathlib.TextLemmas.{nil-append, cons-append, head-eq_of_cons-eq, tail-eq_of_cons-eq}
use kuber.Base.{
  ap₂, String, Bool, false, ◌||◌, [], ◌∷◌, ◌==◌, ==_iff, string_eq, nat_eq, ◌≡◌, refl, sym, ap, ◌∙◌,
  inl, inr, arith, if◌then◌else◌, Bool-cases,
}
use kuber.Base.Lists.{any}
use kuber.Base.Text.{join}
use kuber.Base.Result.{Result, ok, raise, value_error, ok-injective, raise≢ok}

-- `":" in value`
unfoldable pub has_colon : String → Bool
has_colon String.[] = false
has_colon (String.◌∷◌ c s) = code c == 58 || has_colon s

unfoldable pub workload_lock_key : String → String → String → Result String
unfolding has_colon
workload_lock_key cluster namespace workload_id =
    let values = cluster ∷ namespace ∷ workload_id ∷ [] in
    if any (λ value. value == "" || has_colon value) values
    then raise (value_error "lock key components must be non-empty and may not contain ':'")
    else ok (join ":" values)

abbrev colon : Char
colon = char 58 tt

head_code : {c d : Char} {s t : String} → (String.◌∷◌ c s) ≡ (String.◌∷◌ d t) → code c ≡ code d
head_code h = ap code (head-eq_of_cons-eq h)

-- A text without a colon ends at the first colon.
split_at_colon :
    (s t u v : String)
    → has_colon s ≡ false
    → has_colon t ≡ false
    → String.◌++◌ s (String.◌∷◌ colon u) ≡ String.◌++◌ t (String.◌∷◌ colon v)
    → (s ≡ t) × (u ≡ v)
unfolding has_colon
split_at_colon String.[] String.[] u v p q h =
    (refl, tail-eq_of_cons-eq (sym (nil-append _) ∙ h ∙ nil-append _))
split_at_colon String.[] (String.◌∷◌ d t) u v p q h =
    let same : 58 ≡ code d = head_code (sym (nil-append _) ∙ h ∙ cons-append d t _) in
    ground (arith, q, (==_iff (code d) 58).1 (sym same))
split_at_colon (String.◌∷◌ c s) String.[] u v p q h =
    let same : code c ≡ 58 = head_code (sym (cons-append c s _) ∙ h ∙ nil-append _) in
    ground (arith, p, (==_iff (code c) 58).1 same)
split_at_colon (String.◌∷◌ c s) (String.◌∷◌ d t) u v p q h =
    let h' = sym (cons-append c s _) ∙ h ∙ cons-append d t _ in
    let (same, rest) =
      split_at_colon s t u v (ground (arith, p)) (ground (arith, q)) (tail-eq_of_cons-eq h') in
    (ap₂ String.◌∷◌ (head-eq_of_cons-eq h') same, rest)

lock_key_inv :
    (c n w k : String)
    → workload_lock_key c n w ≡ ok k
    → (has_colon c ≡ false)
      × (has_colon n ≡ false)
      × (has_colon w ≡ false)
      × (k ≡ join ":" (c ∷ n ∷ w ∷ []))
unfolding workload_lock_key
lock_key_inv c n w k h =
    elim (Bool-cases (any (λ value. value == "" || has_colon value) (c ∷ n ∷ w ∷ []))) [
      | inl bad ↦ absurd (raise≢ok (rw bad at h))
      | inr good ↦ (
        ground (arith, good),
        ground (arith, good),
        ground (arith, good),
        sym (ok-injective (rw good at h)),
      )
    ]

-- A text that a lock's key can have as a part.
abbrev pub IsKeyPart : String → Type 0
IsKeyPart value = (¬ (value ≡ "")) × (has_colon value ≡ false)

-- The key of a lock can be made of these.
pub record MakesKey (cluster namespace workload_id : String) : Type 0 where
  pub cluster_part : IsKeyPart cluster
  pub namespace_part : IsKeyPart namespace
  pub workload_part : IsKeyPart workload_id

pub MakesKey-intro : (c n w k : String) → workload_lock_key c n w ≡ ok k → MakesKey c n w
unfolding workload_lock_key
MakesKey-intro c n w k h =
    elim (Bool-cases (any (λ value. value == "" || has_colon value) (c ∷ n ∷ w ∷ []))) [
      | inl bad ↦ absurd (raise≢ok (rw bad at h))
      | inr good ↦ record {
        cluster_part = ((λ e. ground (arith, good, (==_iff c "").1 e)), ground (arith, good));
        namespace_part = ((λ e. ground (arith, good, (==_iff n "").1 e)), ground (arith, good));
        workload_part = ((λ e. ground (arith, good, (==_iff w "").1 e)), ground (arith, good));
      }
    ]

filled : (value : String) → ¬ (value ≡ "") → (value == "") ≡ false
filled value given = elim (Bool-cases (value == "")) [
  | inl empty ↦ absurd (given ((==_iff value "").0 empty))
  | inr h ↦ h
]

pub workload_lock_key-eq-ok :
    (c n w : String) → MakesKey c n w → workload_lock_key c n w ≡ ok (join ":" (c ∷ n ∷ w ∷ []))
unfolding workload_lock_key
workload_lock_key-eq-ok c n w parts =
    rw
      (
        filled c parts.cluster_part.0,
        parts.cluster_part.1,
        filled n parts.namespace_part.0,
        parts.namespace_part.1,
        filled w parts.workload_part.0,
        parts.workload_part.1,
      )
      refl

colon-append : (u : String) → String.◌++◌ ":" u ≡ String.◌∷◌ colon u
colon-append u = cons-append colon "" u ∙ ap (String.◌∷◌ colon) (nil-append u)

-- Two triples of cluster, namespace and workload that have the same lock key are the same.
pub workload_lock_key-injective :
    (c n w d m v k : String)
    → workload_lock_key c n w ≡ ok k
    → workload_lock_key d m v ≡ ok k
    → (c ≡ d) × (n ≡ m) × (w ≡ v)
workload_lock_key-injective c n w d m v k g h =
    let (c_free, n_free, w_free, is) = lock_key_inv c n w k g in
    let (d_free, m_free, v_free, is') = lock_key_inv d m v k h in
    let (same_cluster, rest) =
      split_at_colon c d _ _ c_free d_free (through c d _ _ (sym is ∙ is')) in
    let (same_namespace, same_workload) =
      split_at_colon n m w v n_free m_free (through n m _ _ rest) in
    (same_cluster, same_namespace, same_workload)
  where
    through :
        (s t u x : String)
        → String.◌++◌ s (String.◌++◌ ":" u) ≡ String.◌++◌ t (String.◌++◌ ":" x)
        → String.◌++◌ s (String.◌∷◌ colon u) ≡ String.◌++◌ t (String.◌∷◌ colon x)
    through s t u x e =
        ap (String.◌++◌ s) (sym (colon-append u)) ∙ e ∙ ap (String.◌++◌ t) (colon-append x)
