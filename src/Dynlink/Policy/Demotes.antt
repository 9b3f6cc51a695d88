-- ===== src/Dynlink/Policy/Demotes.antt =====
-- gs/fpvdgs/dynlink/policy.py: the counters at the top of `Policy.tick`, the predictive and the proactive demote.
use fpvd.Prelude.{
  ℕ, ◌+◌, ◌-◌, Bool, ◌&&◌, Option, none, some, List, [], ◌∷◌, ltb, leb, ◌==◌, if◌then◌else◌,
  push_bounded,
}
use fpvd.Prelude.Int.{pos}
use fpvd.Prelude.Float.{Float}
use fpvd.Dynlink.LearnedPrior
use fpvd.Dynlink.LearnedPrior.{LearnedPrior, lsq_slope}
use fpvd.Dynlink.Selector
use fpvd.Dynlink.Selector.{SelectorConfig, LeadingSelector, Class, Reason}
use fpvd.Dynlink.Signals.{Signals}
use fpvd.Dynlink.Policy.State.{PolicyReason, predict_demote, snr_demote, Policy}

module _ {F : Type 0} ⦃fl : Float F⦄ where
  -- The cooldown and starvation counters at the top of `tick`.
  unfoldable pub advance : Policy F → Signals F → Policy F
  advance p s = record p {
    windows_since_demote = p.windows_since_demote + 1;
    starvation_count = if s.link_starved_w then p.starvation_count + 1 else 0;
  }

  abbrev pub cooldown_ok : Policy F → Bool
  cooldown_ok p = leb p.cfg.selector.demote_cooldown_windows p.windows_since_demote

  -- An external demote of one rung, if there is a lower one.
  abbrev pub step_down : Policy F → F → Policy F
  step_down p ts_ms = record p {
    leading = Selector.external_demote p.leading (p.leading.current_mcs - 1) ts_ms;
  }

  -- The tests of the predictive demote, outermost first.
  abbrev pub predict_unviable : Policy F → F → F → Bool
  predict_unviable p snr slope =
      LearnedPrior.snr_predictive_rung_unviable p.learned_prior (some snr) slope
        p.leading.current_mcs p.cfg.learned_prior.predictive_demote_margin_db

  abbrev pub predict_dropping : Policy F → F → Bool
  predict_dropping p slope =
      let lp = p.cfg.learned_prior in
      fl.le lp.predictive_min_drop_db
        (fl.mul (fl.neg slope) (fl.of_int (pos lp.predictive_horizon_ticks)))

  abbrev pub predict_due : Policy F → Bool
  predict_due p =
      let cur = p.leading.current_mcs in
      leb p.cfg.learned_prior.predictive_debounce_windows p.predict_demote_count
      && cooldown_ok p
      && ltb (cur - 1) cur

  -- The body of the predictive demote once the SNR sample is in the window.
  abbrev pub predict_on : Policy F → F → F → F → Policy F × List (PolicyReason F)
  predict_on p snr slope ts_ms =
      let cur = p.leading.current_mcs in
      let q = record p { predict_demote_count = p.predict_demote_count + 1 } in
      let reset = record p { predict_demote_count = 0 } in
      if predict_unviable p snr slope
      then (if predict_dropping p slope
          then (if predict_due q
              then (step_down q ts_ms, predict_demote cur (cur - 1) ∷ [])
              else (q, []))
          else (reset, []))
      else (reset, [])

  unfoldable pub predict : Policy F → Option F → F → Policy F × Option F × List (PolicyReason F)
  predict p none ts_ms = (p, none, [])
  predict p (some snr) ts_ms =
      let q = record p {
        snr_window =
            push_bounded p.cfg.learned_prior.predictive_slope_window_ticks p.snr_window snr;
      } in
      let slope = lsq_slope q.snr_window in
      let (r, why) = predict_on q snr slope ts_ms in (r, some slope, why)

  -- The proactive SNR demote; `start` is the rung at the start of the tick.
  abbrev pub proactive_unviable : Policy F → Option F → Bool
  proactive_unviable p snr =
      LearnedPrior.snr_rung_unviable p.learned_prior p.leading.current_mcs snr
        p.cfg.selector.snr_demote_margin_db

  abbrev pub proactive_due : Policy F → ℕ → Bool
  proactive_due p start =
      let cur = p.leading.current_mcs in
      leb p.cfg.selector.snr_demote_debounce p.snr_demote_count
      && cooldown_ok p
      && cur == start
      && ltb (cur - 1) cur

  -- The proactive SNR demote; `start` is the rung at the start of the tick.
  unfoldable pub proactive : Policy F → Option F → ℕ → F → Policy F × List (PolicyReason F)
  proactive p snr start ts_ms =
      let cur = p.leading.current_mcs in
      let q = record p { snr_demote_count = p.snr_demote_count + 1 } in
      if proactive_unviable p snr
      then (if proactive_due q start
          then (step_down q ts_ms, snr_demote cur (cur - 1) ∷ [])
          else (q, []))
      else (record p { snr_demote_count = 0 }, [])
