-- ===== src/Prelude/Dict.antt =====
-- Python's `dict` in insertion order, as an association list. `set` keeps the place of a key.
use Prim.Native.Nat.{ℕ}
use mathlib.Core.Path.{◌≡◌, refl}
use mathlib.Core.Bool.{Bool, true}
use mathlib.Core.Logic.{◌↔◌}
use mathlib.Core.Option.{Option, none, some}
use mathlib.Core.List.{List, [], ◌∷◌}
use native.Mathlib.Omega.{arith}
use fpvd.Prelude.Tests.{◌==◌, if◌then◌else◌}

abbrev pub Dict {ℓ} : Type ℓ → Type ℓ
Dict V = List (ℕ × V)

module _ {ℓ} {V : Type ℓ} where
  unfoldable pub get? : ℕ → Dict V → Option V
  get? k [] = none
  get? k ((j, v) ∷ m) = if j == k then some v else get? k m

  unfoldable pub put : ℕ → V → Dict V → Dict V
  put k v [] = (k, v) ∷ []
  put k v ((j, w) ∷ m) = if j == k then (k, v) ∷ m else (j, w) ∷ put k v m

  -- `d.pop(k, None)`
  unfoldable pub remove : ℕ → Dict V → Dict V
  remove k [] = []
  remove k ((j, v) ∷ m) = let rest = remove k m in if j == k then rest else (j, v) ∷ rest

  pub get?-put :
      (k j : ℕ) (v : V) (m : Dict V) → get? j (put k v m) ≡ (if k == j then some v else get? j m)
  unfolding get? put
  get?-put k j v [] = refl
  get?-put k j v ((i, w) ∷ m) = ground (arith, get?-put k j v m)

  pub get?-remove :
      (k j : ℕ) (m : Dict V) → get? j (remove k m) ≡ (if k == j then none else get? j m)
  unfolding get? remove
  get?-remove k j [] = ground arith
  get?-remove k j ((i, w) ∷ m) = ground (arith, get?-remove k j m)

  pub get?-empty : (k : ℕ) → get? k [] ≡ none
  unfolding get?
  get?-empty k = refl

pub ruleset dict_laws = (get?-put, get?-remove, get?-empty)

-- A `dict` whose keys are compared by a test.
module _ {ℓ κ} {K : Type ℓ} {V : Type κ} (same : K → K → Bool) where
  unfoldable pub get_by : K → List (K × V) → Option V
  get_by k [] = none
  get_by k ((j, v) ∷ m) = if same j k then some v else get_by k m

  unfoldable pub put_by : K → V → List (K × V) → List (K × V)
  put_by k v [] = (k, v) ∷ []
  put_by k v ((j, w) ∷ m) = if same j k then (j, v) ∷ m else (j, w) ∷ put_by k v m

-- Where the test is true of equal keys, and of those alone.
module _ {K V : Type 0} (same : K → K → Bool)
    (same_iff : (a b : K) → (same a b ≡ true) ↔ (a ≡ b)) where
  pub get_by-put_by :
      (k j : K) (v : V) (m : List (K × V))
      → get_by same k (put_by same j v m) ≡ (if same j k then some v else get_by same k m)
  unfolding get_by put_by
  get_by-put_by k j v [] = refl
  get_by-put_by k j v ((i, w) ∷ m) =
      ground (arith, same_iff k j, same_iff j k, same_iff i k, same_iff i j, get_by-put_by k j v m)
