-- ===== src/Prelude/Fixed.antt =====
-- Fixed-point numbers with three decimals, as an instance of `Float` that computes.
use Prim.Native.Nat.{ℕ, zero, suc, ◌+◌, ◌*◌, ◌/◌, ◌%◌, ◌^◌}
use mathlib.Core.Path.{◌≡◌}
use mathlib.Core.Bool.{true, not}
use mathlib.Core.Logic.{◌⊎◌, inl, inr}
use native.Mathlib.Omega.{arith}
use fpvd.Prelude.Tests.{Bool-cases, ltb, ◌==◌, if◌then◌else◌}
use fpvd.Prelude.Int.{ℤ, pos, negsuc, ◌+ℤ◌, ◌-ℤ◌, ◌*ℤ◌, quot, ltb_ℤ, leb_ℤ}
use fpvd.Prelude.Float.{Float, IsOrdered}

-- A quotient by a signed divisor; the programs never divide by zero where the model uses it.
abbrev quot_ℤ : ℤ → ℤ → ℤ
quot_ℤ a (pos d) = quot a d
quot_ℤ a (negsuc d) = quot (pos 0 -ℤ a) (suc d)

abbrev times : ℤ → ℤ → ℤ
times a b = quot (a *ℤ b) 1000

abbrev power : ℤ → ℕ → ℤ
power a zero = pos 1000
power a (suc n) = times (power a n) a

-- To the nearest integer, from halfway to the even one.
abbrev nearest_even : ℕ → ℕ → ℕ
nearest_even whole rest =
    if ltb rest 500
    then whole
    else if ltb 500 rest
    then whole + 1
    else if whole % 2 == 0
    then whole
    else whole + 1

abbrev nearest : ℤ → ℤ
nearest (pos n) = pos (nearest_even (n / 1000) (n % 1000))
nearest (negsuc n) = pos 0 -ℤ pos (nearest_even (suc n / 1000) (suc n % 1000))

-- The power with a fractional exponent is the first-order approximation around 1.
unfoldable pub milli : Float ℤ
unfolding ◌+ℤ◌ ◌-ℤ◌ ◌*ℤ◌
milli = record {
  of_int = λ n. n *ℤ pos 1000;
  decimal = λ m k. pos (m * 1000 / 10 ^ k);
  neg = λ a. pos 0 -ℤ a;
  add = ◌+ℤ◌;
  sub = ◌-ℤ◌;
  mul = times;
  div = λ a b. quot_ℤ (a *ℤ pos 1000) b;
  pow = power;
  pow_float = λ a b. pos 1000 +ℤ times (a -ℤ pos 1000) b;
  trunc = λ a. quot a 1000;
  round = nearest;
  lt = ltb_ℤ;
  le = leb_ℤ;
}

leb_ℤ_refl : (a : ℤ) → leb_ℤ a a ≡ true
leb_ℤ_refl a = ground arith

leb_ℤ_trans : (a b c : ℤ) → leb_ℤ a b ≡ true → leb_ℤ b c ≡ true → leb_ℤ a c ≡ true
leb_ℤ_trans a b c h k = ground arith

leb_ℤ_total : (a b : ℤ) → (leb_ℤ a b ≡ true) ⊎ (leb_ℤ b a ≡ true)
leb_ℤ_total a b = elim (Bool-cases (leb_ℤ a b)) [ inl h ↦ inl h | inr h ↦ inr (ground arith) ]

ltb_ℤ-not_leb : (a b : ℤ) → ltb_ℤ a b ≡ not (leb_ℤ b a)
ltb_ℤ-not_leb a b = ground arith

pub milli-IsOrdered : IsOrdered milli
unfolding milli
milli-IsOrdered = record {
  le_refl = leb_ℤ_refl;
  le_trans = leb_ℤ_trans;
  le_total = leb_ℤ_total;
  lt_not_le = ltb_ℤ-not_leb;
}
