-- ===== src/Dynlink/Signals/FixedShares.antt =====
-- The fixed-point numbers have shares.
use native.Mathlib.Nat.{div-le_of_le-mul}
use fpvd.Prelude.{ℕ, ◌*◌, ◌/◌, ◌≤◌, ◌≡◌, refl, arith}
use fpvd.Prelude.Int.{pos, ◌*ℤ◌}
use fpvd.Prelude.Fixed.{milli}
use fpvd.Dynlink.Signals.Rates.{InUnit, HasShares}

times_thousand : (n : ℕ) → pos n *ℤ pos 1000 ≡ pos (n * 1000)
unfolding ◌*ℤ◌
times_thousand n = ground arith

quotient-milli :
    (n m : ℕ)
    → milli.div (milli.of_int (pos n)) (milli.of_int (pos m)) ≡ pos (n * 1000 * 1000 / (m * 1000))
unfolding milli
quotient-milli n m = rw (times_thousand n, times_thousand m, times_thousand (n * 1000)) refl

at_most_one : (n m : ℕ) → n ≤ m → n * 1000 * 1000 / (m * 1000) ≤ 1000
at_most_one n m h = div-le_of_le-mul (m * 1000) (omega (arith, h))

pub in_unit : (n : ℕ) → n ≤ 1000 → InUnit milli (pos n)
unfolding milli ◌*ℤ◌
in_unit n h = (ground arith, ground (arith, h))

pub milli-HasShares : HasShares milli
milli-HasShares = record {
  nought = unfold milli in in_unit 0 (ground arith);
  quotient = λ n m h p.
      rw (quotient-milli n m) (in_unit (n * 1000 * 1000 / (m * 1000)) (at_most_one n m h));
}
