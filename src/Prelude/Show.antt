-- ===== src/Prelude/Show.antt =====
-- Native texts as the programs build them.
use Prim.Native.String.{String, ◌++◌ as append, compare}
use Prim.Native.Char.{code}
use Prim.Native.Nat.{ℕ, zero, suc, ◌/◌, ◌%◌, Ordering}
use mathlib.Core.Bool.{Bool, true, false, ◌&&◌, ◌||◌}
use mathlib.Core.List.{List, [], ◌∷◌}
use mathlib.Core.Option.{Option, none, some}
use fpvd.Prelude.Int.{ℤ, pos, negsuc}
use fpvd.Prelude.Text.{is_space}
use text.Mathlib.Text.{◌==◌ as str_eq}
use fpvd.Prelude.Tests.{◌==◌, ltb, leb, if◌then◌else◌}

abbrev pub concat : List String → String
concat [] = ""
concat (s ∷ parts) = append s (concat parts)

-- `sep.join(parts)`
unfoldable pub join_with : String → List String → String
join_with sep [] = ""
join_with sep (s ∷ []) = s
join_with sep (s ∷ t ∷ parts) = append s (append sep (join_with sep (t ∷ parts)))

abbrev digit : ℕ → String
digit d =
    if d == 0
    then "0"
    else if d == 1
    then "1"
    else if d == 2
    then "2"
    else if d == 3
    then "3"
    else if d == 4
    then "4"
    else if d == 5
    then "5"
    else if d == 6
    then "6"
    else if d == 7
    then "7"
    else if d == 8
    then "8"
    else "9"

show_from : ℕ → ℕ → String
show_from zero n = digit (n % 10)
show_from (suc fuel) n =
    let rest = show_from fuel (n / 10) in if ltb n 10 then digit n else append rest (digit (n % 10))

-- `str(n)`
unfoldable pub show : ℕ → String
unfolding show_from
show n = show_from n n

-- `a <= b` of texts.
abbrev pub str_le : String → String → Bool
str_le a b = elim (compare a b) [ Ordering.gt ↦ false | _ ↦ true ]

abbrev pub str_in : String → List String → Bool
str_in s [] = false
str_in s (t ∷ ts) = if str_eq t s then true else str_in s ts

-- `s or ""`
abbrev pub text_or_empty : Option String → String
text_or_empty none = ""
text_or_empty (some s) = s

abbrev pub is_blank : String → Bool
is_blank s = str_eq s ""

-- `s.strip()`
unfoldable pub lstrip : String → String
lstrip String.[] = ""
lstrip (String.◌∷◌ c s) = if is_space (code c) then lstrip s else String.◌∷◌ c s

unfoldable pub rstrip : String → String
rstrip String.[] = ""
rstrip (String.◌∷◌ c s) =
    let rest = rstrip s in if is_space (code c) && is_blank rest then "" else String.◌∷◌ c rest

-- The characters at which `splitlines` ends a line; `\r\n` is one end.
abbrev is_break : ℕ → Bool
is_break c = leb 10 c && leb c 13 || leb 28 c && leb c 30 || c == 133 || c == 8232 || c == 8233

abbrev on_first_line : (String → String) → List String → List String
on_first_line f [] = f "" ∷ []
on_first_line f (l ∷ lines) = f l ∷ lines

-- `after_cr`: the character before was a carriage return.
unfoldable pub lines_from : Bool → String → List String
lines_from after_cr String.[] = []
lines_from after_cr (String.◌∷◌ c s) =
    let same = lines_from false s in
    let ended = lines_from (code c == 13) s in
    if after_cr && code c == 10
    then same
    else if is_break (code c)
    then "" ∷ ended
    else on_first_line (λ l. String.◌∷◌ c l) same

-- `s.splitlines()`
abbrev pub splitlines : String → List String
splitlines s = lines_from false s

abbrev pub show_ℤ : ℤ → String
show_ℤ (pos n) = show n
show_ℤ (negsuc n) = append "-" (show (suc n))
