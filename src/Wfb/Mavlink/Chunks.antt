-- ===== src/Wfb/Mavlink/Chunks.antt =====
-- The loop on the bytes that are left: its fuel, and a stream that comes in two parts.
use fpvd.Prelude.{
  ℕ, zero, suc, ◌≤◌, ◌≡◌, refl, sym, ap, ◌∙◌, List, [], ◌∷◌, ◌++◌, arith, length, length-append,
  length-drop, take, drop,
}
use fpvd.Wfb.AggQueue.{Bytes}
use fpvd.Wfb.Mavlink.{Turn, wait, unsynced, incomplete, frame, turn}
use fpvd.Wfb.Mavlink.Turns.{
  parse, Fits, turn-Fits, Persists, turn-Persists, drop-append-le, take-append-le,
}

parse_empty : (n : ℕ) → parse n [] ≡ ([], [])
unfolding parse turn
parse_empty zero = refl
parse_empty (suc n) = refl

parse_fuel_turn :
    (n m : ℕ) (xs : Bytes)
    → ((ys : Bytes) → length ys ≤ n → length ys ≤ m → parse n ys ≡ parse m ys)
    → length xs ≤ suc n
    → length xs ≤ suc m
    → (t : Turn) → turn xs ≡ t
    → Fits xs t
    → parse (suc n) xs ≡ parse (suc m) xs
unfolding parse
parse_fuel_turn n m xs ih h k wait e f = rw (parse, e) refl
parse_fuel_turn n m xs ih h k unsynced e f =
    rw (parse, e)
      (ih (drop 1 xs) (omega (arith, h, f, length-drop 1 xs))
        (omega (arith, k, f, length-drop 1 xs)))
parse_fuel_turn n m xs ih h k incomplete e f = rw (parse, e) refl
parse_fuel_turn n m xs ih h k (frame mlen) e f =
    rw (parse, e)
      (ap (λ r. (take mlen xs ∷ r.0, r.1))
        (ih (drop mlen xs) (omega (arith, h, f.0, f.1, length-drop mlen xs))
          (omega (arith, k, f.0, f.1, length-drop mlen xs))))

pub parse_fuel : (n m : ℕ) (xs : Bytes) → length xs ≤ n → length xs ≤ m → parse n xs ≡ parse m xs
parse_fuel n m [] h k = parse_empty n ∙ sym (parse_empty m)
parse_fuel zero m (x ∷ xs) h k = absurd (ground (arith, h))
parse_fuel (suc n) zero (x ∷ xs) h k = absurd (ground (arith, k))
parse_fuel (suc n) (suc m) (x ∷ xs) h k =
    parse_fuel_turn n m (x ∷ xs) (λ ys. parse_fuel n m ys) h k (turn (x ∷ xs)) refl
      (turn-Fits (x ∷ xs))

-- The stream goes on with `ys`.
abbrev pub resume : ℕ → Bytes → List Bytes × Bytes → List Bytes × Bytes
resume m ys r = let q = parse m (r.1 ++ ys) in (r.0 ++ q.0, q.1)

append_turn :
    (n k m : ℕ) (xs ys : Bytes)
    → ((zs : Bytes)
        → length zs ≤ n
        → length (zs ++ ys) ≤ k
        → length (zs ++ ys) ≤ m
        → parse k (zs ++ ys) ≡ resume m ys (parse n zs))
    → length xs ≤ suc n
    → length (xs ++ ys) ≤ suc k
    → length (xs ++ ys) ≤ m
    → (t : Turn) → turn xs ≡ t
    → Fits xs t
    → Persists xs ys t
    → parse (suc k) (xs ++ ys) ≡ resume m ys (parse (suc n) xs)
unfolding parse
append_turn n k m xs ys ih h i j wait e f p = rw (parse, e) (parse_fuel (suc k) m (xs ++ ys) i j)
append_turn n k m xs ys ih h i j incomplete e f p =
    rw (parse, e) (parse_fuel (suc k) m (xs ++ ys) i j)
append_turn n k m xs ys ih h i j unsynced e f p =
    rw (parse, e, p, drop-append-le 1 xs ys f)
      (ih (drop 1 xs) (omega (arith, h, f, length-drop 1 xs))
        (omega (arith, i, f, length-append xs ys, length-append (drop 1 xs) ys, length-drop 1 xs))
        (omega (arith, j, f, length-append xs ys, length-append (drop 1 xs) ys, length-drop 1 xs)))
append_turn n k m xs ys ih h i j (frame mlen) e f p =
    rw (parse, e, p, drop-append-le mlen xs ys f.1, take-append-le mlen xs ys f.1)
      (ap (λ r. (take mlen xs ∷ r.0, r.1))
        (ih (drop mlen xs) (omega (arith, h, f.0, f.1, length-drop mlen xs))
          (omega (
            arith,
            i,
            f.0,
            f.1,
            length-append xs ys,
            length-append (drop mlen xs) ys,
            length-drop mlen xs,
          ))
          (omega (
            arith,
            j,
            f.0,
            f.1,
            length-append xs ys,
            length-append (drop mlen xs) ys,
            length-drop mlen xs,
          ))))

pub parse-append :
    (n k m : ℕ) (xs ys : Bytes)
    → length xs ≤ n
    → length (xs ++ ys) ≤ k
    → length (xs ++ ys) ≤ m
    → parse k (xs ++ ys) ≡ resume m ys (parse n xs)
parse-append n k m [] ys h i j = rw (parse_empty n) (parse_fuel k m ys i j)
parse-append zero k m (x ∷ xs) ys h i j = absurd (ground (arith, h))
parse-append (suc n) zero m (x ∷ xs) ys h i j = absurd (ground (arith, i))
parse-append (suc n) (suc k) m (x ∷ xs) ys h i j =
    append_turn n k m (x ∷ xs) ys (λ zs. parse-append n k m zs ys) h i j (turn (x ∷ xs)) refl
      (turn-Fits (x ∷ xs)) (turn-Persists (x ∷ xs) ys)

-- What is left is no longer, and no turn goes on with it.
abbrev pub IsDone : Turn → Type 0
IsDone wait = Unit
IsDone unsynced = ⊥
IsDone incomplete = Unit
IsDone (frame mlen) = ⊥

abbrev pub Left : Bytes → Bytes → Type 0
Left xs left = (length left ≤ length xs) × IsDone (turn left)

turn-Left :
    (n : ℕ) (xs : Bytes)
    → ((ys : Bytes) → length ys ≤ n → Left ys (parse n ys).1)
    → length xs ≤ suc n
    → (t : Turn) → turn xs ≡ t
    → Fits xs t
    → Left xs (parse (suc n) xs).1
unfolding parse
turn-Left n xs ih h wait e f = rw (parse, e) (omega arith, rw e tt)
turn-Left n xs ih h unsynced e f =
    let r = ih (drop 1 xs) (omega (arith, h, f, length-drop 1 xs)) in
    rw (parse, e) (omega (arith, r.0, length-drop 1 xs), r.1)
turn-Left n xs ih h incomplete e f = rw (parse, e) (omega arith, rw e tt)
turn-Left n xs ih h (frame mlen) e f =
    let r = ih (drop mlen xs) (omega (arith, h, f.0, f.1, length-drop mlen xs)) in
    rw (parse, e) (omega (arith, r.0, length-drop mlen xs), r.1)

empty-Left : (n : ℕ) → Left [] (parse n []).1
unfolding turn
empty-Left n = rw (parse_empty n) (omega arith, tt)

pub parse-Left : (n : ℕ) (xs : Bytes) → length xs ≤ n → Left xs (parse n xs).1
parse-Left n [] h = empty-Left n
parse-Left zero (x ∷ xs) h = absurd (ground (arith, h))
parse-Left (suc n) (x ∷ xs) h =
    turn-Left n (x ∷ xs) (λ ys. parse-Left n ys) h (turn (x ∷ xs)) refl (turn-Fits (x ∷ xs))
