-- ===== src/Prelude/Text/Laws.antt =====
-- Splitting what was joined, and reading a number that was printed.
use mathlib.Core.List.{reverse, reverse-cons, reverse-append, reverse-reverse, append_assoc}
use Prim.Native.Nat.{ℕ, zero, suc, ◌+◌, ◌-◌, ◌*◌, ◌/◌, ◌%◌, ◌≤◌}
use mathlib.Core.Path.{◌≡◌, refl, sym, ap, ◌∙◌}
use mathlib.Core.Bool.{Bool, true, false}
use mathlib.Core.List.{List, [], ◌∷◌, ◌++◌}
use mathlib.Core.Logic.{inl, inr}
use mathlib.Core.Option.{some}
use native.Mathlib.Omega.{arith}
use fpvd.Prelude.Tests.{◌==◌, ltb, ltb→lt, Bool-cases}
use fpvd.Prelude.Lists.{All}
use fpvd.Prelude.Int.{pos}
use fpvd.Prelude.Text.{
  Text, is_space, strip, strip_left, split, join_by, digit_of, digits_from, after_prefix, int_of,
  decimal_from, decimal, signed,
}

-- A text without the separator.
abbrev pub Lacks : ℕ → Text → Type 0
Lacks sep s = All (λ c. (c == sep) ≡ false) s

split_whole : (sep : ℕ) (s : Text) → Lacks sep s → split sep s ≡ s ∷ []
unfolding split
split_whole sep [] a = refl
split_whole sep (c ∷ s) a = rw (a.0, split_whole sep s a.1)

split-append : (sep : ℕ) (p s : Text) → Lacks sep p → split sep (p ++ sep ∷ s) ≡ p ∷ split sep s
unfolding split
split-append sep [] s a = ground arith
split-append sep (c ∷ p) s a = rw (a.0, split-append sep p s a.1)

pub split-join_by :
    (sep : ℕ) (p : Text) (parts : List Text)
    → All (Lacks sep) (p ∷ parts)
    → split sep (join_by sep (p ∷ parts)) ≡ p ∷ parts
unfolding join_by
split-join_by sep p [] a = split_whole sep p a.0
split-join_by sep p (q ∷ parts) a =
    split-append sep p (join_by sep (q ∷ parts)) a.0
    ∙ ap (λ l. p ∷ l) (split-join_by sep q parts a.1)

pub All-append {ℓ κ} :
    {A : Type ℓ} (P : A → Type κ) (xs ys : List A) → All P xs → All P ys → All P (xs ++ ys)
All-append P [] ys h k = k
All-append P (x ∷ xs) ys h k = (h.0, All-append P xs ys h.1 k)

pub All-reverse {ℓ κ} : {A : Type ℓ} (P : A → Type κ) (xs : List A) → All P xs → All P (reverse xs)
All-reverse P [] a = tt
All-reverse P (x ∷ xs) a =
    rw (reverse-cons x xs) (All-append P (reverse xs) (x ∷ []) (All-reverse P xs a.1) (a.0, tt))

abbrev pub IsSolid : ℕ → Type 0
IsSolid c = is_space c ≡ false

strip_left_solid : (s : Text) → All IsSolid s → strip_left s ≡ s
strip_left_solid [] a = refl
strip_left_solid (c ∷ s) a = rw a.0

pub strip_solid : (s : Text) → All IsSolid s → strip s ≡ s
unfolding strip
strip_solid s a =
    rw (strip_left_solid s a, strip_left_solid (reverse s) (All-reverse IsSolid s a))
      (reverse-reverse s)

abbrev pub IsDigit : ℕ → Type 0
IsDigit c = (48 ≤ c) × (c ≤ 57)

digit_of_digit : (c : ℕ) → IsDigit c → digit_of 10 c ≡ some (c - 48)
digit_of_digit c h = ground (arith, h)

-- The number that digits stand for.
abbrev number : ℕ → Text → ℕ
number acc [] = acc
number acc (c ∷ s) = number (acc * 10 + (c - 48)) s

number-append : (acc : ℕ) (s t : Text) → number acc (s ++ t) ≡ number (number acc s) t
number-append acc [] t = refl
number-append acc (c ∷ s) t = number-append (acc * 10 + (c - 48)) s t

digits_from-number :
    (after : Bool) (acc c : ℕ) (s : Text)
    → All IsDigit (c ∷ s)
    → digits_from 10 after acc (c ∷ s) ≡ some (number acc (c ∷ s))
unfolding digits_from
digits_from-number after acc c [] a = rw (digits_from, digit_of_digit c a.0)
digits_from-number after acc c (d ∷ s) a =
    rw (digits_from, digit_of_digit c a.0) (digits_from-number true (acc * 10 + (c - 48)) d s a.1)

-- Some digits that stand for n.
abbrev Prints : ℕ → Text → Type 0
Prints n [] = ⊥
Prints n (c ∷ s) = All IsDigit (c ∷ s) × (number 0 (c ∷ s) ≡ n)

Prints-snoc : (n : ℕ) (s : Text) → Prints (n / 10) s → Prints n (s ++ (48 + n % 10) ∷ [])
Prints-snoc n [] h = elim h [ ]
Prints-snoc n (c ∷ s) h = (
  All-append IsDigit (c ∷ s) ((48 + n % 10) ∷ []) h.0 (omega arith),
  number-append 0 (c ∷ s) ((48 + n % 10) ∷ []) ∙ omega (arith, h.1),
)

decimal_from-Prints : (fuel n : ℕ) → n ≤ fuel → Prints n (decimal_from fuel n)
decimal_from-Prints zero n h = omega arith
decimal_from-Prints (suc fuel) n h = elim (Bool-cases (ltb n 10)) [
  | inl e ↦ rw e (omega (arith, ltb→lt n 10 e))
  | inr e ↦ rw e (
      Prints-snoc n (decimal_from fuel (n / 10))
        (decimal_from-Prints fuel (n / 10) (ground (arith, h, e))))
]

after_prefix_ten : (s : Text) → after_prefix 10 s ≡ s
after_prefix_ten [] = refl
after_prefix_ten (a ∷ []) = refl
after_prefix_ten (a ∷ b ∷ []) = refl
after_prefix_ten (a ∷ b ∷ c ∷ s) = refl

digit-IsSolid : (s : Text) → All IsDigit s → All IsSolid s
digit-IsSolid [] a = tt
digit-IsSolid (c ∷ s) a = (ground (arith, a.0), digit-IsSolid s a.1)

not_sign : (c : ℕ) → IsDigit c → ((c == 43) ≡ false) × ((c == 45) ≡ false)
not_sign c h = ground (arith, h)

signed_digits : (n c : ℕ) (s : Text) → Prints n (c ∷ s) → signed 10 (c ∷ s) ≡ some (pos n)
signed_digits n c s h =
    let k = not_sign c h.0.0 in
    rw (k.0, k.1, after_prefix_ten (c ∷ s), digits_from-number false 0 c s h.0, h.1)

int_of-Prints : (n : ℕ) (s : Text) → Prints n s → int_of 10 s ≡ some (pos n)
unfolding int_of
int_of-Prints n [] h = elim h [ ]
int_of-Prints n (c ∷ s) h =
    rw (strip_solid (c ∷ s) (digit-IsSolid (c ∷ s) h.0)) (signed_digits n c s h)

Prints-IsDigit : (n : ℕ) (s : Text) → Prints n s → All IsDigit s
Prints-IsDigit n [] h = elim h [ ]
Prints-IsDigit n (c ∷ s) h = h.0

-- What `str` prints of a natural number, `int` reads as that number.
pub int_of-decimal : (n : ℕ) → int_of 10 (decimal n) ≡ some (pos n)
unfolding decimal
int_of-decimal n = int_of-Prints n (decimal_from n n) (decimal_from-Prints n n (omega arith))

pub decimal-IsDigit : (n : ℕ) → All IsDigit (decimal n)
unfolding decimal
decimal-IsDigit n = Prints-IsDigit n (decimal_from n n) (decimal_from-Prints n n (omega arith))

abbrev pub IsFilled : Text → Type 0
IsFilled [] = ⊥
IsFilled (c ∷ s) = All IsSolid (c ∷ s)

pub IsFilled-append : (s t : Text) → IsFilled s → All IsSolid t → IsFilled (s ++ t)
IsFilled-append [] t h a = elim h [ ]
IsFilled-append (c ∷ s) t h a = (h.0, All-append IsSolid s t h.1 a)

strip_left-append : (s t : Text) → IsFilled s → strip_left (s ++ t) ≡ s ++ t
strip_left-append [] t h = elim h [ ]
strip_left-append (c ∷ s) t h = rw h.0

IsFilled-snoc : (s : Text) (c : ℕ) → All IsSolid s → IsSolid c → IsFilled (s ++ c ∷ [])
IsFilled-snoc [] c a h = (h, tt)
IsFilled-snoc (d ∷ s) c a h = (a.0, All-append IsSolid s (c ∷ []) a.1 (h, tt))

Prints-IsFilled : (n : ℕ) (s : Text) → Prints n s → IsFilled s
Prints-IsFilled n [] h = elim h [ ]
Prints-IsFilled n (c ∷ s) h = digit-IsSolid (c ∷ s) h.0

IsFilled-reverse : (s : Text) → IsFilled s → IsFilled (reverse s)
IsFilled-reverse [] h = elim h [ ]
IsFilled-reverse (c ∷ s) h =
    rw (reverse-cons c s) (IsFilled-snoc (reverse s) c (All-reverse IsSolid s h.1) h.0)

reverse_parts : (s m t : Text) → reverse (s ++ (m ++ t)) ≡ reverse t ++ (reverse m ++ reverse s)
reverse_parts s m t =
    reverse-append s (m ++ t)
    ∙ ap (λ u. u ++ reverse s) (reverse-append m t)
    ∙ append_assoc (reverse t) (reverse m) (reverse s)

-- Blanks inside a text stay.
pub strip-append : (s m t : Text) → IsFilled s → IsFilled t → strip (s ++ (m ++ t)) ≡ s ++ (m ++ t)
unfolding strip
strip-append s m t h k =
    let x = s ++ (m ++ t) in
    ap (λ u. reverse (strip_left (reverse u))) (strip_left-append s (m ++ t) h)
    ∙ ap (λ u. reverse (strip_left u)) (reverse_parts s m t)
    ∙ ap reverse (strip_left-append (reverse t) (reverse m ++ reverse s) (IsFilled-reverse t k))
    ∙ ap reverse (sym (reverse_parts s m t))
    ∙ reverse-reverse x

pub decimal-IsFilled : (n : ℕ) → IsFilled (decimal n)
unfolding decimal
decimal-IsFilled n = Prints-IsFilled n (decimal_from n n) (decimal_from-Prints n n (omega arith))
