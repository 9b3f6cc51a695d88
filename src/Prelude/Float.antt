-- ===== src/Prelude/Float.antt =====
-- Python's `float`, which antt has no type for: a carrier with the operations that the code uses.
-- A definition that computes with floats takes them as an instance, and a theorem that needs laws
-- takes them as a hypothesis. `Fixed` is a concrete instance in which the definitions run.
use Prim.Native.Nat.{ℕ}
use mathlib.Core.Path.{◌≡◌}
use mathlib.Core.Bool.{Bool, true, not}
use mathlib.Core.Logic.{◌⊎◌}
use fpvd.Prelude.Tests.{if◌then◌else◌}
use fpvd.Prelude.Int.{ℤ}

pub record Float (F : Type 0) : Type 0 where
  pub of_int : ℤ → F
  pub decimal : ℕ → ℕ → F  -- `decimal m k` is the literal m / 10^k
  pub neg : F → F
  pub add : F → F → F
  pub sub : F → F → F
  pub mul : F → F → F
  pub div : F → F → F
  pub pow : F → ℕ → F  -- `x ** n`
  pub pow_float : F → F → F  -- `x ** y`
  pub trunc : F → ℤ  -- `int(x)`
  pub round : F → ℤ  -- `round(x)`
  pub lt : F → F → Bool
  pub le : F → F → Bool

module _ {F : Type 0} ⦃fl : Float F⦄ where
  -- `max(a, b)` and `min(a, b)` return the first of equal arguments.
  abbrev pub max_float : F → F → F
  max_float a b = if fl.lt a b then b else a

  abbrev pub min_float : F → F → F
  min_float a b = if fl.lt b a then b else a

-- The order of the floats that are no NaN: total, with `<` the negation of `≥`.
pub record IsOrdered {F : Type 0} (fl : Float F) : Type 0 where
  pub le_refl : (a : F) → fl.le a a ≡ true
  pub le_trans : (a b c : F) → fl.le a b ≡ true → fl.le b c ≡ true → fl.le a c ≡ true
  pub le_total : (a b : F) → (fl.le a b ≡ true) ⊎ (fl.le b a ≡ true)
  pub lt_not_le : (a b : F) → fl.lt a b ≡ not (fl.le b a)
