-- ===== src/Dynlink/Selector/Damped.antt =====
-- The damper at work: a charged rung waits, and no back-off is longer than the cap.
use mathlib.Core.Path.{subst}
use fpvd.Prelude.{ℕ, ◌+◌, ◌≡◌, ◌≤◌, ◌<◌, inl, inr, Bool, true, false, some, arith}
use fpvd.Prelude.Float.{Float}
use fpvd.Prelude.Dict.{get?}
use fpvd.Dynlink.Selector.{
  LeadingSelector, raw_min_clear, on_trial, effective_flap_level, flap_backoff_ms,
}
use fpvd.Dynlink.Selector.Select.{Inputs, begin, select}
use fpvd.Dynlink.Selector.Bounds.{IsValid}
use fpvd.Dynlink.Selector.Promote.{select_step, Released}
use fpvd.Dynlink.Selector.Damper.{Charged, select_charges}

module _ {F : Type 0} ⦃fl : Float F⦄ where
  not-Released :
      (b : LeadingSelector F) (rung : ℕ) (until ts : F) (release : Bool)
      → get? rung b.suppress_until_ms ≡ some until
      → fl.le until ts ≡ false
      → release ≡ false
      → raw_min_clear b rung ≡ false
      → ¬ Released b rung ts release
  not-Released b rung until ts release w early probe raw (inl over) = ground arith
  not-Released b rung until ts release w early probe raw (inr (inl clean)) = cc
  not-Released b rung until ts release w early probe raw (inr (inr clear)) = cc

  -- A charged rung stays closed: after a loss on probation the next call of `select` does not raise the
  -- rung while the back-off runs, unless the probe is clean or the raw SNR of the last ticks is clear.
  Charged-rung_waits :
      (s : LeadingSelector F) (i : Inputs F) (t : LeadingSelector F) (j : Inputs F)
      (u : LeadingSelector F)
      → IsValid t
      → 0 < s.current_mcs
      → Charged s i t
      → select t j ≡ some u
      → fl.le
          (fl.add i.ts_ms
            (flap_backoff_ms s.cfg (effective_flap_level s s.current_mcs i.ts_ms + 1)))
          j.ts_ms
        ≡ false
      → j.probe_release ≡ false
      → raw_min_clear (begin t j) s.current_mcs ≡ false
      → u.current_mcs ≤ t.current_mcs
  unfolding begin
  Charged-rung_waits s i t j u v p c e early probe raw = elim (select_step t j u v e).1 [
    | inl (_, down) ↦ ground (arith, down)
    | inr (_, inl kept) ↦ omega (arith, kept)
    | inr (_, inr up) ↦
        let next : t.current_mcs + 1 ≡ s.current_mcs = omega (arith, c.down, p) in
        absurd (
          not-Released (begin t j) s.current_mcs _ j.ts_ms j.probe_release c.window early probe raw
            (subst (λ r. Released (begin t j) r j.ts_ms j.probe_release) next up.damper))
  ]

  -- A rung above 0 that a loss demote of a valid selector takes back while the rung is on trial is
  -- not entered again by the next `select` before its back-off is over, unless the probe is clean
  -- or the raw SNR has cleared the last flap.
  pub flap_damped :
      (s : LeadingSelector F) (i : Inputs F) (t : LeadingSelector F) (j : Inputs F)
      (u : LeadingSelector F)
      → IsValid s
      → 0 < s.current_mcs
      → i.loss_demote ≡ true
      → i.can_demote ≡ true
      → on_trial s s.current_mcs i.ts_ms ≡ true
      → select s i ≡ some t
      → select t j ≡ some u
      → fl.le
          (fl.add i.ts_ms
            (flap_backoff_ms s.cfg (effective_flap_level s s.current_mcs i.ts_ms + 1)))
          j.ts_ms
        ≡ false
      → j.probe_release ≡ false
      → raw_min_clear (begin t j) s.current_mcs ≡ false
      → u.current_mcs ≤ t.current_mcs
  flap_damped s i t j u v p loss can trial first second early probe raw =
      let c = select_charges s i v p loss can trial in
      let same : c.0 ≡ t = cc (c.1, first) in
      Charged-rung_waits s i t j u (select_step s i t v first).0 p (rw same at c.2) second early
        probe raw
