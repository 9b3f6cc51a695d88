-- ===== src/Probe/Blackout.antt =====
-- A run of windows without packets.
use fpvd.Prelude.{
  ℕ, suc, ◌+◌, ◌≡◌, refl, ap, ◌∙◌, Bool, true, false, ◌&&◌, Option, some, List, [], ◌∷◌, arith, ltb,
  leb, or_else, if◌then◌else◌,
}
use fpvd.Prelude.Int.{ℤ, pos, ◌+ℤ◌, eq_ℤ, eq_ℤ_iff, leb_ℤ}
use fpvd.Prelude.Dict.{get_by, get_by-put_by}
use fpvd.Prelude.Float.{Float}
use fpvd.Probe.{McsAggregator, Slot, new_slot, slot, store, on_pkt, empty_window}

grown : (a n : ℕ) → a + 1 + n ≡ a + suc n
grown a n = omega arith

-- The counts of a window without packets.
abbrev pub IsEmpty : ℤ × ℤ → Type 0
IsEmpty w = leb_ℤ (w.0 +ℤ w.1) (pos 0) ≡ true

module _ {F : Type 0} ⦃fl : Float F⦄ where
  unfoldable pub on_pkts : McsAggregator F → ℤ → List (ℤ × ℤ) → McsAggregator F
  on_pkts g mcs [] = g
  on_pkts g mcs (w ∷ windows) = on_pkts (on_pkt g mcs w.0 w.1) mcs windows

  or_else_if :
      (b : Bool) (s d : Slot F) (o : Option (Slot F))
      → or_else (if b then some s else o) d ≡ (if b then s else or_else o d)
  or_else_if true s d o = refl
  or_else_if false s d o = refl

  pub slot-store :
      (g : McsAggregator F) (mcs j : ℤ) (s : Slot F)
      → slot (store g mcs s) j ≡ (if eq_ℤ mcs j then s else slot g j)
  slot-store g mcs j s =
      ap (λ o. or_else o new_slot) (get_by-put_by eq_ℤ eq_ℤ_iff j mcs s g.slots)
      ∙ or_else_if (eq_ℤ mcs j) s new_slot (get_by eq_ℤ j g.slots)

  -- The slot of a rung after a run of windows without packets.
  abbrev pub after_run : ℕ → ℕ → Slot F → Slot F
  after_run blackout n s = record s {
    empty = s.empty + n;
    per = if ltb 0 n && leb blackout (s.empty + n) then some (fl.of_int (pos 1)) else s.per;
  }

  per_after :
      (blackout e n : ℕ) (one : F) (per : Option F)
      → (if ltb 0 n && leb blackout (e + 1 + n)
          then some one
          else if leb blackout (e + 1)
          then some one
          else per)
        ≡ (if ltb 0 (suc n) && leb blackout (e + suc n) then some one else per)
  per_after blackout e n one per = ground arith

  after_run-suc :
      (blackout n : ℕ) (s : Slot F)
      → after_run blackout n (empty_window blackout s) ≡ after_run blackout (suc n) s
  after_run-suc blackout n s = λ i. record s {
    empty = grown s.empty n i;
    per = per_after blackout s.empty n (fl.of_int (pos 1)) s.per i;
  }

  run_on :
      (b : Bool) (blackout n : ℕ) (s t : Slot F)
      → (if b
          then after_run blackout n (empty_window blackout s)
          else if b
          then empty_window blackout s
          else t)
        ≡ (if b then after_run blackout (suc n) s else t)
  run_on true blackout n s t = after_run-suc blackout n s
  run_on false blackout n s t = refl
