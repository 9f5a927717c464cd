-- ===== src/Judge/Simulator/Verify.antt =====
-- What the simulated verification reports.
use mathlib.Core.Bool.{false≢true}
use kuber.Base.{
  Bool-cases, ◌≡◌, refl, sym, subst, ◌∙◌, inl, inr, ◌↔◌, true, false, not, List, [], ◌∷◌, Memᴰ,
  arith,
}
use kuber.Base.Lists.{
  filter-intro, filter-elim, Memᴰ-append_cases, Memᴰ-append_left, Memᴰ-append_right,
}
use kuber.Base.Dict.Unique.{unique, unique-subset, unique-covers}
use kuber.Models.Event.{KubeEvent, event_eq}
use kuber.Models.Policy.{Policy}
use kuber.Rbac.Authorization.{is_authorized}
use kuber.Agent.Verifier.{is_empty}
use kuber.Judge.Simulator.{
  VerificationTest, SimulatorEnvironment, test_denials, denied_calls, verify_result, describe,
}
use kuber.Agent.Environment.{VerificationResult}

-- A call that some verification test makes.
abbrev pub IsTestCall : List VerificationTest → KubeEvent → Type 0
IsTestCall tests call = (test : VerificationTest) × Memᴰ test tests × Memᴰ call test.events

pub denied_calls_iff :
    (policy : Policy) (tests : List VerificationTest) (call : KubeEvent)
    → Memᴰ call (denied_calls policy tests)
      ↔ (IsTestCall tests call × (is_authorized policy call ≡ false))
denied_calls_iff policy tests call =
    (sound tests, λ ((test, m, n), denied). complete tests m n denied)
  where
    sound :
        (ts : List VerificationTest)
        → Memᴰ call (denied_calls policy ts)
        → IsTestCall ts call × (is_authorized policy call ≡ false)
    sound [] m = elim m [ ]
    sound (t ∷ ts) m = elim (Memᴰ-append_cases (test_denials policy t) m) [
      | inl here ↦
          let (n, denied) = filter-elim (λ e. not (is_authorized policy e)) t.events here in
          ((t, Memᴰ.head refl, n), ground (arith, denied))
      | inr there ↦ let ((s, n, k), denied) = sound ts there in ((s, Memᴰ.tail n, k), denied)
    ]

    complete :
        (ts : List VerificationTest) {test : VerificationTest}
        → Memᴰ test ts
        → Memᴰ call test.events
        → is_authorized policy call ≡ false
        → Memᴰ call (denied_calls policy ts)
    complete [] m n denied = elim m [ ]
    complete (t ∷ ts) (Memᴰ.head same) n denied = Memᴰ-append_left _ (
        filter-intro (λ e. not (is_authorized policy e)) (subst (λ t. Memᴰ call t.events) same n)
          (rw denied refl))
    complete (t ∷ ts) (Memᴰ.tail m) n denied =
        Memᴰ-append_right (test_denials policy t) (complete ts m n denied)

is_empty-none : {A : Type 0} (xs : List A) → is_empty xs ≡ true → xs ≡ []
is_empty-none [] h = refl
is_empty-none (x ∷ xs) h = absurd (false≢true h)

is_empty_of : {A : Type 0} (xs : List A) → ((x : A) → ¬ Memᴰ x xs) → is_empty xs ≡ true
is_empty_of [] h = refl
is_empty_of (x ∷ xs) h = absurd (h x (Memᴰ.head refl))

-- The simulated verification passes exactly when the policy in force allows every call of every
-- verification test.
pub verify_result-passed_iff :
    (env : SimulatorEnvironment)
    → ((verify_result env).passed ≡ true) ↔ (
        (call : KubeEvent)
        → IsTestCall env.case.verification_tests call
        → is_authorized env.current_policy call ≡ true)
unfolding verify_result
verify_result-passed_iff env = (
  λ h call is_test. elim (Bool-cases (is_authorized env.current_policy call)) [
    | inl allowed ↦ allowed
    | inr denied ↦
        let m =
          (denied_calls_iff env.current_policy env.case.verification_tests call).1
            (is_test, denied) in
        let none_denied =
          is_empty-none (denied_calls env.current_policy env.case.verification_tests) h in
        elim (subst (Memᴰ call) none_denied m) [ ]
  ],
  λ allowed. is_empty_of (denied_calls env.current_policy env.case.verification_tests) λ call m.
      (let (is_test, denied) =
          (denied_calls_iff env.current_policy env.case.verification_tests call).0 m in
        false≢true (sym denied ∙ allowed call is_test)),
)

-- The simulated verification reports a call as denied exactly when some verification test makes
-- it and the policy in force denies it.
pub verify_result-denied_iff :
    (env : SimulatorEnvironment) (call : KubeEvent)
    → Memᴰ call (verify_result env).denied_events ↔ (
        IsTestCall env.case.verification_tests call
        × (is_authorized env.current_policy call ≡ false))
unfolding verify_result
verify_result-denied_iff env call = (
  λ m.
      (denied_calls_iff env.current_policy env.case.verification_tests call).0
        (unique-subset (λ e. e) (denied_calls env.current_policy env.case.verification_tests) m),
  λ h.
      (let (y, m, same) =
          unique-covers (λ e. e) (denied_calls env.current_policy env.case.verification_tests)
            ((denied_calls_iff env.current_policy env.case.verification_tests call).1 h) in
        subst
          (λ z.
            Memᴰ z (unique (λ e. e) (denied_calls env.current_policy env.case.verification_tests)))
          (sym same) m),
)

is_empty-some : {A : Type 0} (xs : List A) → is_empty xs ≡ false → (x : A) × Memᴰ x xs
is_empty-some [] h = absurd (false≢true (sym h))
is_empty-some (x ∷ xs) h = (x, Memᴰ.head refl)

-- A verification that does not pass reports some call.
pub verify_result-some_denied :
    (env : SimulatorEnvironment)
    → (verify_result env).passed ≡ false
    → (call : KubeEvent) × Memᴰ call (verify_result env).denied_events
unfolding verify_result
verify_result-some_denied env h =
    let denied = denied_calls env.current_policy env.case.verification_tests in
    let (call, m) = is_empty-some denied h in
    let (other, n, same) = unique-covers (λ e. e) denied m in (other, n)

-- A failure that reports calls is described as a denial of exactly these calls.
pub describe-denial :
    (result : VerificationResult) (call : KubeEvent)
    → Memᴰ call result.denied_events
    → ((describe result).authorization_denial ≡ true)
      × ((describe result).missing_events ≡ result.denied_events)
unfolding describe
describe-denial result call m = rw (not_empty result.denied_events m) (refl, refl)
  where
    not_empty : (xs : List KubeEvent) → Memᴰ call xs → is_empty xs ≡ false
    not_empty [] n = elim n [ ]
    not_empty (x ∷ xs) n = refl
