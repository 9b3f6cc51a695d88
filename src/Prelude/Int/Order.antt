-- ===== src/Prelude/Int/Order.antt =====
-- The order of the integers, and weighted sums with their floor division.
use Prim.Native.Nat.{ℕ, suc, ◌+◌, ◌*◌, ◌≤◌, ◌<◌}
use mathlib.Core.Path.{◌≡◌}
use native.Mathlib.Nat.{mul-le-mul_right, le-div_iff_mul-le, div-lt_iff_lt-mul, add-mul, mul-add}
use native.Mathlib.Omega.{arith}
use fpvd.Prelude.Int.{
  ℤ, pos, negsuc, pos_part, neg_part, sub_ℕ, ◌+ℤ◌, ◌*ℤ◌, floor_div, min_ℤ, max_ℤ,
}

-- a ≤ b
abbrev pub Le : ℤ → ℤ → Type 0
Le a b = pos_part a + neg_part b ≤ pos_part b + neg_part a

-- m times p is at most s, and at least s.
abbrev pub ScaledLe : ℤ → ℕ → ℤ → Type 0
ScaledLe m p s = pos_part m * p + neg_part s ≤ pos_part s + neg_part m * p

abbrev pub LeScaled : ℤ → ℤ → ℕ → Type 0
LeScaled s m p = pos_part s + neg_part m * p ≤ pos_part m * p + neg_part s

add_parts :
    (a b : ℤ)
    → pos_part (a +ℤ b) + (neg_part a + neg_part b) ≡ pos_part a + pos_part b + neg_part (a +ℤ b)
unfolding ◌+ℤ◌
add_parts a b = ground arith

sub_parts : (a b : ℕ) → pos_part (sub_ℕ a b) + b ≡ a + neg_part (sub_ℕ a b)
sub_parts a b = ground arith

mul_parts :
    (a : ℤ) (k : ℕ)
    → pos_part (a *ℤ pos k) + neg_part a * k ≡ pos_part a * k + neg_part (a *ℤ pos k)
unfolding ◌*ℤ◌
mul_parts a k =
    omega (arith, sub_parts (pos_part a * k + neg_part a * 0) (pos_part a * 0 + neg_part a * k))

scale : (a b c d p : ℕ) → a + b ≤ c + d → a * p + b * p ≤ c * p + d * p
scale a b c d p h = omega (arith, mul-le-mul_right p h, add-mul a b p, add-mul c d p)

pub mul-ScaledLe : (m a : ℤ) (p : ℕ) → Le m a → ScaledLe m p (a *ℤ pos p)
mul-ScaledLe m a p h =
    omega (arith, mul_parts a p, scale (pos_part m) (neg_part a) (pos_part a) (neg_part m) p h)

pub mul-LeScaled : (m a : ℤ) (p : ℕ) → Le a m → LeScaled (a *ℤ pos p) m p
mul-LeScaled m a p h =
    omega (arith, mul_parts a p, scale (pos_part a) (neg_part m) (pos_part m) (neg_part a) p h)

pub add-ScaledLe :
    (m n k s t : ℤ) (p q : ℕ)
    → Le k m
    → Le k n
    → ScaledLe m p s
    → ScaledLe n q t
    → ScaledLe k (p + q) (s +ℤ t)
add-ScaledLe m n k s t p q h i a b = omega (
  arith,
  add_parts s t,
  mul-add (pos_part k) p q,
  mul-add (neg_part k) p q,
  scale (pos_part k) (neg_part m) (pos_part m) (neg_part k) p h,
  scale (pos_part k) (neg_part n) (pos_part n) (neg_part k) q i,
  a,
  b,
)

pub add-LeScaled :
    (m n k s t : ℤ) (p q : ℕ)
    → Le m k
    → Le n k
    → LeScaled s m p
    → LeScaled t n q
    → LeScaled (s +ℤ t) k (p + q)
add-LeScaled m n k s t p q h i a b = omega (
  arith,
  add_parts s t,
  mul-add (pos_part k) p q,
  mul-add (neg_part k) p q,
  scale (pos_part m) (neg_part k) (pos_part k) (neg_part m) p h,
  scale (pos_part n) (neg_part k) (pos_part k) (neg_part n) q i,
  a,
  b,
)

-- The floor of a quotient lies where the weighted sum does.
pub ScaledLe-floor_div : (m s : ℤ) (p : ℕ) → 0 < p → ScaledLe m p s → Le m (floor_div s p)
ScaledLe-floor_div (pos a) (pos n) p h k =
    omega (arith, (le-div_iff_mul-le {k = p} {x = a} {y = n} h).1 (omega (arith, k)))
ScaledLe-floor_div (negsuc a) (pos n) p h k = omega arith
ScaledLe-floor_div (pos a) (negsuc n) p h k = absurd (omega (arith, k))
ScaledLe-floor_div (negsuc a) (negsuc n) p h k =
    omega (arith, (div-lt_iff_lt-mul {k = p} {x = n} {y = suc a} h).1 (omega (arith, k)))

pub LeScaled-floor_div : (m s : ℤ) (p : ℕ) → 0 < p → LeScaled s m p → Le (floor_div s p) m
LeScaled-floor_div (pos a) (pos n) p h k = omega (
  arith,
  (div-lt_iff_lt-mul {k = p} {x = n} {y = suc a} h).1 (omega (arith, k, h, add-mul 1 a p)),
)
LeScaled-floor_div (negsuc a) (pos n) p h k = absurd (omega (arith, k, h, add-mul a 1 p))
LeScaled-floor_div (pos a) (negsuc n) p h k = omega arith
LeScaled-floor_div (negsuc a) (negsuc n) p h k =
    omega
      (arith, (le-div_iff_mul-le {k = p} {x = a} {y = n} h).1 (omega (arith, k, h, add-mul a 1 p)))

pub min-Le : (a b : ℤ) → Le (min_ℤ a b) a × Le (min_ℤ a b) b
min-Le a b = ground arith

pub max-Le : (a b : ℤ) → Le a (max_ℤ a b) × Le b (max_ℤ a b)
max-Le a b = ground arith
