-- ===== src/Prelude/Text.antt =====
-- Python's text as a list of code points, with the methods of `str` that the parsers use.
pub mod Laws
use Prim.Native.Char.{code}
use Prim.Native.String.{String}
use Prim.Native.Nat.{ℕ, zero, suc, ◌+◌, ◌-◌, ◌*◌, ◌/◌, ◌%◌, ◌<◌, ◌≤◌}
use mathlib.Core.Path.{◌≡◌, refl}
use mathlib.Core.Bool.{Bool, true, false, ◌&&◌, ◌||◌}
use mathlib.Core.List.{List, [], ◌∷◌, ◌++◌, reverse}
use mathlib.Core.Option.{Option, none, some}
use native.Mathlib.Omega.{arith}
use fpvd.Prelude.Tests.{◌==◌, ltb, leb, if◌then◌else◌}
use fpvd.Prelude.Int.{ℤ, pos, negsuc}

abbrev pub Text : Type 0
Text = List ℕ

-- The code points of a literal.
abbrev pub codes : String → Text
codes String.[] = []
codes (String.◌∷◌ c s) = code c ∷ codes s

abbrev pub text_eq : Text → Text → Bool
text_eq [] [] = true
text_eq (c ∷ s) (d ∷ t) = c == d && text_eq s t
text_eq _ _ = false

-- `str.isspace` of one character.
abbrev pub is_space : ℕ → Bool
is_space c =
    leb 9 c && leb c 13
    || leb 28 c && leb c 32
    || c == 133
    || c == 160
    || c == 5760
    || leb 8192 c && leb c 8202
    || c == 8232
    || c == 8233
    || c == 8239
    || c == 8287
    || c == 12288

abbrev pub strip_left : Text → Text
strip_left [] = []
strip_left (c ∷ s) = if is_space c then strip_left s else c ∷ s

-- `s.strip()`
unfoldable pub strip : Text → Text
strip s = reverse (strip_left (reverse (strip_left s)))

abbrev on_first : (Text → Text) → List Text → List Text
on_first f [] = f [] ∷ []
on_first f (p ∷ parts) = f p ∷ parts

-- `s.split(sep)` at a separator of one character: there is always a part.
unfoldable pub split : ℕ → Text → List Text
split sep [] = [] ∷ []
split sep (c ∷ s) = if c == sep then [] ∷ split sep s else on_first (λ p. c ∷ p) (split sep s)

-- `sep.join(parts)`
unfoldable pub join_by : ℕ → List Text → Text
join_by sep [] = []
join_by sep (p ∷ []) = p
join_by sep (p ∷ q ∷ parts) = p ++ sep ∷ join_by sep (q ∷ parts)

-- `s.split(sep, 1)` where the separator is found.
unfoldable pub cut : ℕ → Text → Option (Text × Text)
cut sep [] = none
cut sep (c ∷ s) =
    if c == sep
    then some ([], s)
    else elim (cut sep s) [ none ↦ none | some r ↦ some (c ∷ r.0, r.1) ]

-- `s.rsplit(sep, 1)` where the separator is found.
unfoldable pub cut_last : ℕ → Text → Option (Text × Text)
cut_last sep [] = none
cut_last sep (c ∷ s) = elim (cut_last sep s) [
  | none ↦ if c == sep then some ([], s) else none
  | some r ↦ some (c ∷ r.0, r.1)
]

-- The value of a digit in bases up to 16.
abbrev pub digit_of : ℕ → ℕ → Option ℕ
digit_of base c =
    let v =
      if leb 48 c && leb c 57
      then c - 48
      else if leb 97 c && leb c 102
      then c - 87
      else if leb 65 c && leb c 70
      then c - 55
      else 99 in
    if ltb v base then some v else none

-- Digits, and single underscores between them: `after_digit` tells whether the last one was a digit.
unfoldable pub digits_from : ℕ → Bool → ℕ → Text → Option ℕ
digits_from base after_digit acc [] = if after_digit then some acc else none
digits_from base after_digit acc (c ∷ s) = elim (digit_of base c) [
  | some v ↦ digits_from base true (acc * base + v) s
  | none ↦ elim (after_digit && c == 95) [ true ↦ digits_from base false acc s | false ↦ none ]
]

-- After `0x` an underscore may stand before the first digit.
abbrev after_prefix : ℕ → Text → Text
after_prefix base (z ∷ x ∷ u ∷ s) =
    if base == 16 && z == 48 && (x == 120 || x == 88)
    then (if u == 95 then s else u ∷ s)
    else z ∷ x ∷ u ∷ s
after_prefix base s = s

abbrev unsigned : ℕ → Text → Option ℕ
unsigned base s = digits_from base false 0 (after_prefix base s)

abbrev positive : Option ℕ → Option ℤ
positive none = none
positive (some n) = some (pos n)

abbrev negative : Option ℕ → Option ℤ
negative none = none
negative (some zero) = some (pos 0)
negative (some (suc n)) = some (negsuc n)

abbrev signed : ℕ → Text → Option ℤ
signed base [] = none
signed base (c ∷ s) =
    if c == 43
    then positive (unsigned base s)
    else if c == 45
    then negative (unsigned base s)
    else positive (unsigned base (c ∷ s))

-- `int(s, base)`; `none` is a ValueError.
unfoldable pub int_of : ℕ → Text → Option ℤ
int_of base s = signed base (strip s)

-- `[int(v) for v in parts]`
unfoldable pub ints_of : List Text → Option (List ℤ)
ints_of [] = some []
ints_of (p ∷ parts) = elim (int_of 10 p) [
  | none ↦ none
  | some v ↦ elim (ints_of parts) [ none ↦ none | some vs ↦ some (v ∷ vs) ]
]

abbrev decimal_from : ℕ → ℕ → Text
decimal_from zero n = (48 + n % 10) ∷ []
decimal_from (suc fuel) n =
    let rest = decimal_from fuel (n / 10) in
    if ltb n 10 then (48 + n) ∷ [] else rest ++ (48 + n % 10) ∷ []

-- `str(n)`: as many digits as n is enough fuel.
unfoldable pub decimal : ℕ → Text
decimal n = decimal_from n n
