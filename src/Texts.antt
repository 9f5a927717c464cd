-- ===== src/Texts.antt =====
-- The methods of texts, and the pattern, that the code uses.
use Prim.Native.Char.{Char, code}
use kuber.Base.{
  ℕ, zero, suc, ◌+◌, ◌*◌, ◌-◌, String, Bool, true, false, ◌&&◌, ◌||◌, Option, none, some, List, [],
  ◌∷◌, ◌≡◌, refl, leb, ◌==◌, nat_eq, string_eq, if◌then◌else◌,
}

-- The characters at which `splitlines` ends a line, less the return.
abbrev is_break : ℕ → Bool
is_break c = leb 10 c && leb c 12 || leb 28 c && leb c 30 || c == 133 || c == 8232 || c == 8233

abbrev before : Char → List String → List String
before c [] = String.◌∷◌ c String.[] ∷ []
before c (line ∷ lines) = String.◌∷◌ c line ∷ lines

-- `after_return` stands behind a return, with which a line feed is one break.
lines_from : Bool → String → List String
lines_from after_return String.[] = []
lines_from after_return (String.◌∷◌ c s) =
    let rest = lines_from false s in
    let returned = lines_from true s in
    if after_return && code c == 10
    then rest
    else if code c == 13
    then "" ∷ returned
    else if is_break (code c)
    then "" ∷ rest
    else before c rest

-- `text.splitlines()`
unfoldable pub splitlines : String → List String
unfolding lines_from
splitlines = lines_from false

-- `line[line.find("{") :] if "{" in line else ""`
unfoldable pub from_brace : String → String
from_brace String.[] = ""
from_brace (String.◌∷◌ c s) = if code c == 123 then String.◌∷◌ c s else from_brace s

-- `"\n" in text`
unfoldable pub has_newline : String → Bool
has_newline String.[] = false
has_newline (String.◌∷◌ c s) = code c == 10 || has_newline s

-- `c.isspace()`
abbrev is_space : ℕ → Bool
is_space c =
    leb 9 c && leb c 13
    || leb 28 c && leb c 32
    || c == 133
    || c == 160
    || c == 5760
    || leb 8192 c && leb c 8202
    || c == 8232
    || c == 8233
    || c == 8239
    || c == 8287
    || c == 12288

strip_left : String → String
strip_left String.[] = ""
strip_left (String.◌∷◌ c s) = if is_space (code c) then strip_left s else String.◌∷◌ c s

strip_right : String → String
strip_right String.[] = ""
strip_right (String.◌∷◌ c s) =
    let rest = strip_right s in if rest == "" && is_space (code c) then "" else String.◌∷◌ c rest

-- `text.strip()`
unfoldable pub strip : String → String
unfolding strip_left strip_right
strip s = strip_right (strip_left s)

-- The rest behind a prefix.
after_prefix : String → String → Option String
after_prefix String.[] s = some s
after_prefix (String.◌∷◌ p ps) String.[] = none
after_prefix (String.◌∷◌ p ps) (String.◌∷◌ c s) =
    let rest = after_prefix ps s in if code c == code p then rest else none

abbrev is_digit : ℕ → Bool
is_digit c = leb 48 c && leb c 57

-- The value of the digits in front, if there are any, and the rest.
more_digits : ℕ → String → ℕ × String
more_digits value String.[] = (value, "")
more_digits value (String.◌∷◌ c s) =
    let more = more_digits (value * 10 + (code c - 48)) s in
    if is_digit (code c) then more else (value, String.◌∷◌ c s)

digits : String → Option (ℕ × String)
unfolding more_digits
digits String.[] = none
digits (String.◌∷◌ c s) = if is_digit (code c) then some (more_digits 0 (String.◌∷◌ c s)) else none

second_number : ℕ → Option (ℕ × String) → Option (ℕ × ℕ)
second_number passed none = none
second_number passed (some (total, rest)) = some (passed, total)

after_slash : ℕ → Option String → Option (ℕ × ℕ)
unfolding digits second_number
after_slash passed none = none
after_slash passed (some s) = second_number passed (digits s)

first_number : Option (ℕ × String) → Option (ℕ × ℕ)
unfolding after_prefix after_slash
first_number none = none
first_number (some (passed, rest)) = after_slash passed (after_prefix "/" rest)

match_numbers : Option String → Option (ℕ × ℕ)
unfolding digits first_number
match_numbers none = none
match_numbers (some s) = first_number (digits s)

abbrev or_found : Option (ℕ × ℕ) → Option (ℕ × ℕ) → Option (ℕ × ℕ)
or_found none later = later
or_found (some found) later = some found

-- The groups of `re.search(r"KUBER_TEST_SUMMARY=(\d+)/(\d+)", text)` as numbers; of the digits,
-- the decimal ones of ASCII.
unfoldable pub find_summary : String → Option (ℕ × ℕ)
unfolding match_numbers after_prefix
find_summary String.[] = none
find_summary (String.◌∷◌ c s) =
    or_found (match_numbers (after_prefix "KUBER_TEST_SUMMARY=" (String.◌∷◌ c s))) (find_summary s)

-- `text.split(separator)`, the separator one character.
unfoldable pub split : ℕ → String → List String
split separator String.[] = "" ∷ []
split separator (String.◌∷◌ c s) =
    let rest = split separator s in if code c == separator then "" ∷ rest else before c rest

-- `text[:n]`
unfoldable pub take : ℕ → String → String
take zero s = ""
take (suc n) String.[] = ""
take (suc n) (String.◌∷◌ c s) = String.◌∷◌ c (take n s)

-- `len(text)`
unfoldable pub text_length : String → ℕ
text_length String.[] = 0
text_length (String.◌∷◌ c s) = suc (text_length s)

-- The small letter of a capital one of ASCII.
abbrev small : ℕ → ℕ
small c = if leb 65 c && leb c 90 then c + 32 else c

-- A text begins with another, whatever the case of ASCII.
starts_small : String → String → Bool
starts_small String.[] s = true
starts_small (String.◌∷◌ p ps) String.[] = false
starts_small (String.◌∷◌ p ps) (String.◌∷◌ c s) =
    small (code c) == small (code p) && starts_small ps s

-- `word in text.lower()`, for a word of small letters of ASCII.
unfoldable pub has_word : String → String → Bool
unfolding starts_small
has_word word String.[] = word == ""
has_word word (String.◌∷◌ c s) = starts_small word (String.◌∷◌ c s) || has_word word s

-- `text.lower() == word`, for a word of small letters of ASCII.
unfoldable pub is_small : String → String → Bool
unfolding starts_small
is_small word s = starts_small word s && starts_small s word

-- The end of a text from its last full stop.
last_stop : String → Option String
last_stop String.[] = none
last_stop (String.◌∷◌ c s) = elim (last_stop s) [
  | none ↦ if code c == 46 then some (String.◌∷◌ c s) else none
  | some rest ↦ some rest
]

abbrev unless_stop : Option String → String
unless_stop none = ""
unless_stop (some rest) = if rest == "." then "" else rest

-- The suffix of a file's name: a full stop that begins or ends the name starts none.
unfoldable pub suffix : String → String
unfolding last_stop
suffix String.[] = ""
suffix (String.◌∷◌ c s) = unless_stop (last_stop s)

lines_split : splitlines "a\r\n\nb" ≡ "a" ∷ "" ∷ "b" ∷ []
unfolding splitlines
lines_split = refl

summary_found : find_summary "ok KUBER_TEST_SUMMARY=5/x KUBER_TEST_SUMMARY=12/60." ≡ some (12, 60)
unfolding find_summary
summary_found = refl

stripped : strip " kind-kuber\n" ≡ "kind-kuber"
unfolding strip
stripped = refl

names_split : split 44 "a, b,," ≡ "a" ∷ " b" ∷ "" ∷ "" ∷ []
unfolding split
names_split = refl

suffix_found : suffix "settings.tar.Gz" ≡ ".Gz"
unfolding suffix last_stop
suffix_found = refl

hidden_has_none : suffix ".env" ≡ ""
unfolding suffix last_stop
hidden_has_none = refl

word_found : has_word "kubectl" "uses KubeCTL here" ≡ true
unfolding has_word starts_small
word_found = refl
