-- ===== src/Base/Text.antt =====
-- `str` as the native text: `len()` is its number of UTF-8 bytes, and `trim().is_empty()` holds
-- when every character has the Unicode property White_Space.
use Prim.Native.Nat.{ℕ, ◌+◌}
use Prim.Native.Char.{code}
use Prim.Native.String.{String}
use mathlib.Core.Path.{◌≡◌, refl}
use mathlib.Core.Bool.{Bool, true, false, ◌&&◌, ◌||◌}
use mathlib.Core.Logic.{◌↔◌}
use text.Mathlib.Text.{◌==◌ as str_eq}
use text.Mathlib.TextEquality.{eq_iff}
use mathlib.Core.List.{List, [], ◌∷◌, reverse}
use mykvm.Base.Tests.{leb, ◌==◌, ==_iff, ==_refl, &&_split, Eq, if◌then◌else◌}

abbrev pub string_beq : String → String → Bool
string_beq a b = str_eq a b

pub string_beq_iff : (a b : String) → (string_beq a b ≡ true) ↔ (a ≡ b)
string_beq_iff a b = eq_iff a b

instance abbrev pub string_eq : Eq String
string_eq = record { beq = string_beq; beq_iff = string_beq_iff }

abbrev pub is_whitespace : ℕ → Bool
is_whitespace c =
    (leb 0x09 c && leb c 0x0d)
    || c == 0x20
    || c == 0x85
    || c == 0xa0
    || c == 0x1680
    || (leb 0x2000 c && leb c 0x200a)
    || c == 0x2028
    || c == 0x2029
    || c == 0x202f
    || c == 0x205f
    || c == 0x3000

abbrev pub is_blank : String → Bool
is_blank String.[] = true
is_blank (String.◌∷◌ c s) = is_whitespace (code c) && is_blank s

abbrev pub is_empty : String → Bool
is_empty String.[] = true
is_empty (String.◌∷◌ c s) = false

-- `str::trim`.
abbrev pub trim_start : String → String
trim_start String.[] = String.[]
trim_start (String.◌∷◌ c s) = if is_whitespace (code c) then trim_start s else String.◌∷◌ c s

abbrev pub trim_end : String → String
trim_end String.[] = String.[]
trim_end (String.◌∷◌ c s) =
    let rest = trim_end s in
    if is_whitespace (code c) && is_empty rest then String.[] else String.◌∷◌ c rest

unfoldable pub trim : String → String
trim s = trim_end (trim_start s)

-- The `char`s of a text, by their numbers.
abbrev pub codes : String → List ℕ
codes String.[] = []
codes (String.◌∷◌ c s) = code c ∷ codes s

abbrev pub codes_beq : List ℕ → List ℕ → Bool
codes_beq [] [] = true
codes_beq [] (d ∷ t) = false
codes_beq (c ∷ s) [] = false
codes_beq (c ∷ s) (d ∷ t) = c == d && codes_beq s t

pub codes_beq_refl : (s : List ℕ) → codes_beq s s ≡ true
codes_beq_refl [] = refl
codes_beq_refl (c ∷ s) = rw (==_refl c) (codes_beq_refl s)

pub codes_beq_same : (s t : List ℕ) → codes_beq s t ≡ true → s ≡ t
codes_beq_same [] [] h = refl
codes_beq_same [] (d ∷ t) h = absurd (cc)
codes_beq_same (c ∷ s) [] h = absurd (cc)
codes_beq_same (c ∷ s) (d ∷ t) h =
    let both = &&_split (c == d) (codes_beq s t) h in
    λ i. (==_iff c d).0 both.0 i ∷ codes_beq_same s t both.1 i

abbrev pub trim_codes_start : (ℕ → Bool) → List ℕ → List ℕ
trim_codes_start test [] = []
trim_codes_start test (c ∷ s) = if test c then trim_codes_start test s else c ∷ s

-- `trim_matches`.
abbrev pub trim_codes : (ℕ → Bool) → List ℕ → List ℕ
trim_codes test s = reverse (trim_codes_start test (reverse (trim_codes_start test s)))

abbrev pub ascii_lowercase : ℕ → ℕ
ascii_lowercase c = if leb 0x41 c && leb c 0x5a then c + 32 else c

abbrev pub is_ascii_alphanumeric : ℕ → Bool
is_ascii_alphanumeric c =
    (leb 0x30 c && leb c 0x39) || (leb 0x41 c && leb c 0x5a) || (leb 0x61 c && leb c 0x7a)

-- `str::split` at one character; `part` is what was read of the current part, backwards.
abbrev pub split_codes : (mark : ℕ) (part : List ℕ) → List ℕ → List (List ℕ)
split_codes mark part [] = reverse part ∷ []
split_codes mark part (c ∷ s) = elim (c == mark) [
  | true ↦ reverse part ∷ split_codes mark [] s
  | false ↦ split_codes mark (c ∷ part) s
]
