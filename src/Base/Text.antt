-- ===== src/Base/Text.antt =====
-- f-strings, `str.join`, and `or` on texts.
use Prim.Native.String
use Prim.Native.String.{String}
use Prim.Native.Nat.{ℕ, zero, suc, ◌/◌, ◌%◌}
use mathlib.Core.Path.{◌≡◌, refl}
use mathlib.Core.List.{List, [], ◌∷◌}
use kuber.Base.Tests.{ltb, if◌then◌else◌}
use kuber.Base.Equality.{◌==◌, string_eq}

-- The parts of an f-string, one after the other.
abbrev pub concat : List String → String
concat [] = ""
concat (s ∷ ss) = String.◌++◌ s (concat ss)

abbrev pub join : String → List String → String
join sep [] = ""
join sep (s ∷ []) = s
join sep (s ∷ t ∷ ss) = String.◌++◌ s (String.◌++◌ sep (join sep (t ∷ ss)))

-- `s or default`: the empty text is false.
abbrev pub or_else : String → String → String
or_else s default = if s == "" then default else s

digit_texts : List String
digit_texts = "0" ∷ "1" ∷ "2" ∷ "3" ∷ "4" ∷ "5" ∷ "6" ∷ "7" ∷ "8" ∷ "9" ∷ []

text_at : List String → ℕ → String
text_at [] i = ""
text_at (t ∷ ts) zero = t
text_at (t ∷ ts) (suc i) = text_at ts i

-- `str(n)`: the digits, at most as many as the fuel.
show_from : ℕ → ℕ → String
unfolding text_at digit_texts
show_from zero n = ""
show_from (suc fuel) n =
    let last = text_at digit_texts (n % 10) in
    let front = show_from fuel (n / 10) in if ltb n 10 then last else String.◌++◌ front last

unfoldable pub show : ℕ → String
unfolding show_from
show n = show_from (suc n) n

show_203 : show 203 ≡ "203"
unfolding show
show_203 = refl
