-- ===== src/Supervision/Budget.antt =====
-- The crash budget that both supervisors keep: gs/fpvdgs/runner_supervisor.py (`_on_crash_locked`) and
-- gs/fpvdgs/wfb/children.py (`_watch`).
use fpvd.Prelude.{
  ℕ, ◌+◌, ◌≡◌, refl, Bool, true, List, [], ◌∷◌, ◌++◌, ltb, length, length-append, keep, All,
}
use fpvd.Prelude.Float.{Float}

module _ {F : Type 0} ⦃fl : Float F⦄ where
  abbrev pub in_window : F → F → F → Bool
  in_window window now t = fl.lt (fl.sub now t) window

  -- The crashes that still count at `now`, and the one at `now`.
  unfoldable pub charge : F → F → List F → List F
  charge window now recent = keep (in_window window now) recent ++ now ∷ []

  abbrev pub over : ℕ → List F → Bool
  over max_restarts recent = ltb max_restarts (length recent)

  keep-All : (f : F → Bool) (xs : List F) → All (λ x. f x ≡ true) xs → keep f xs ≡ xs
  keep-All f [] a = refl
  keep-All f (x ∷ xs) a = rw (a.0, keep-All f xs a.1)

  -- Crashes that all lie in the window each count.
  pub length-charge :
      (window now : F) (recent : List F)
      → All (λ t. in_window window now t ≡ true) recent
      → length (charge window now recent) ≡ length recent + 1
  unfolding charge
  length-charge window now recent a =
      rw (keep-All (in_window window now) recent a) (length-append recent (now ∷ []))

  pub charge-All :
      (window now : F) (recent : List F)
      → All (λ t. in_window window now t ≡ true) recent
      → charge window now recent ≡ recent ++ now ∷ []
  unfolding charge
  charge-All window now recent a = rw (keep-All (in_window window now) recent a)
