-- ===== src/Wfb/Mavlink/Turns.antt =====
-- The turns of the framer on the bytes that are left, and the loop as a function of them.
use fpvd.Prelude.{
  ℕ, zero, suc, ◌+◌, ◌≤◌, ◌≡◌, refl, ap, ◌∙◌, List, [], ◌∷◌, ◌++◌, arith, length, length-append,
  take, drop,
}
use native.Mathlib.Numerals.{unary_clauses}
use fpvd.Wfb.AggQueue.{Bytes}
use fpvd.Wfb.Mavlink.{Turn, wait, unsynced, incomplete, frame, turn}

-- The loop on the bytes that are left: its frames and what it leaves.
unfoldable pub parse : ℕ → Bytes → List Bytes × Bytes
parse zero xs = ([], xs)
parse (suc fuel) xs = elim (turn xs) [
  | wait ↦ ([], xs)
  | unsynced ↦ parse fuel (drop 1 xs)
  | incomplete ↦ ([], xs)
  | frame mlen ↦ let r = parse fuel (drop mlen xs) in (take mlen xs ∷ r.0, r.1)
]

-- How many bytes a turn takes, with what it needs of the bytes; 0 ends the loop.
abbrev pub Fits : Bytes → Turn → Type 0
Fits xs wait = Unit
Fits xs unsynced = 1 ≤ length xs
Fits xs incomplete = Unit
Fits xs (frame mlen) = (1 ≤ mlen) × (mlen ≤ length xs)

pub turn-Fits : (xs : Bytes) → Fits xs (turn xs)
unfolding turn
turn-Fits [] = tt
turn-Fits (a ∷ []) = tt
turn-Fits (a ∷ b ∷ []) = tt
turn-Fits (a ∷ b ∷ c ∷ xs) = ground arith

-- More bytes change no turn that goes on.
abbrev pub Persists : Bytes → Bytes → Turn → Type 0
Persists xs ys wait = Unit
Persists xs ys unsynced = turn (xs ++ ys) ≡ unsynced
Persists xs ys incomplete = Unit
Persists xs ys (frame mlen) = turn (xs ++ ys) ≡ frame mlen

pub turn-Persists : (xs ys : Bytes) → Persists xs ys (turn xs)
unfolding turn
turn-Persists [] ys = tt
turn-Persists (a ∷ []) ys = tt
turn-Persists (a ∷ b ∷ []) ys = tt
turn-Persists (a ∷ b ∷ c ∷ xs) ys = ground (arith, length-append xs ys)

pub drop-append-le : (n : ℕ) (xs ys : Bytes) → n ≤ length xs → drop n (xs ++ ys) ≡ drop n xs ++ ys
drop-append-le zero xs ys h = refl
drop-append-le (suc n) [] ys h = absurd (ground (arith, h))
drop-append-le (suc n) (x ∷ xs) ys h = drop-append-le n xs ys (omega (arith, h))

pub take-append-le : (n : ℕ) (xs ys : Bytes) → n ≤ length xs → take n (xs ++ ys) ≡ take n xs
take-append-le zero xs ys h = refl
take-append-le (suc n) [] ys h = absurd (ground (arith, h))
take-append-le (suc n) (x ∷ xs) ys h = ap (λ l. x ∷ l) (take-append-le n xs ys (omega (arith, h)))

suc_add : (n m : ℕ) → suc (n + m) ≡ suc n + m
suc_add n m = omega arith

pub drop-drop : (n m : ℕ) (xs : Bytes) → drop m (drop n xs) ≡ drop (n + m) xs
drop-drop zero m xs = ap (λ k. drop k xs) (omega arith)
drop-drop (suc n) zero [] = simp unary_clauses refl
drop-drop (suc n) (suc m) [] = simp unary_clauses refl
drop-drop (suc n) m (x ∷ xs) = drop-drop n m xs ∙ ap (λ k. drop k (x ∷ xs)) (suc_add n m)
