-- ===== src/Dynlink/Policy/Tick.antt =====
-- gs/fpvdgs/dynlink/policy.py: `Policy.tick`: the probe, the arguments of `select`, what is learned, and the whole.
use fpvd.Prelude.{
  ℕ, ◌+◌, Bool, true, false, ◌&&◌, Option, none, some, List, ◌++◌, map, ltb, leb, ◌==◌,
  if◌then◌else◌, is_some,
}
use fpvd.Prelude.Float.{Float}
use fpvd.Prelude.Dict.{get?}
use fpvd.Dynlink.LearnedPrior
use fpvd.Dynlink.LearnedPrior.{LearnedPrior, lsq_slope}
use fpvd.Dynlink.Selector.{LeadingSelector, Class}
use fpvd.Dynlink.Selector.Select.{Inputs, select}
use fpvd.Dynlink.Signals.{Signals, Reading}
use fpvd.Dynlink.Policy.State.{probe_clean_release_ticks, PolicyReason, Decision, Policy, ts_ms_of}
use fpvd.Dynlink.Policy.Demotes.{advance, cooldown_ok, predict, proactive}

abbrev is_mcs : ℕ → Option ℕ → Bool
is_mcs n none = false
is_mcs n (some m) = n == m

module _ {F : Type 0} ⦃fl : Float F⦄ where
  abbrev pub probe_at : Signals F → ℕ → Option (Reading F)
  probe_at s target = elim s.probe [ none ↦ none | some readings ↦ get? target readings ]

  -- A fresh reading whose loss passes a test.
  abbrev pub fresh_with : (F → Bool) → Option (Reading F) → Bool
  fresh_with test none = false
  fresh_with test (some r) = r.fresh && elim r.per [ none ↦ false | some per ↦ test per ]

  -- PROBE_DIRTY_PER is 0.10 and PROBE_CLEAN_PER is 0.02.
  abbrev pub probe_dirty : Option (Reading F) → Bool
  probe_dirty = fresh_with (λ per. fl.le (fl.decimal 10 2) per)

  abbrev pub probe_clean : Option (Reading F) → Bool
  probe_clean = fresh_with (λ per. fl.le per (fl.decimal 2 2))

  -- The streak of clean readings at the promote target.
  unfoldable pub watch_probe : Policy F → Signals F → Policy F
  watch_probe p s =
      let target = p.leading.current_mcs + 1 in
      let ticks = if is_mcs target p.probe_clean_rung then p.probe_clean_ticks else 0 in
      record p {
        probe_clean_rung = some target;
        probe_clean_ticks = if probe_clean (probe_at s target) then ticks + 1 else 0;
      }

  -- The arguments of `select` in a tick.
  abbrev pub inputs_of : Policy F → Signals F → Option F → ℕ → Inputs F
  inputs_of p s slope start =
      let target = p.leading.current_mcs + 1 in
      record {
        snr_ewma = s.snr;
        snr_w = s.snr_w;
        slope = slope;
        loss_rate = s.residual_loss_w;
        loss_demote = fl.le p.cfg.selector.video_demote_per s.residual_loss_w;
        target_confident = LearnedPrior.snr_rung_confident p.learned_prior target;
        target_blocked =
            LearnedPrior.snr_rung_unviable p.learned_prior target s.snr
              (fl.neg p.cfg.selector.snr_promote_margin_db);
        fec_pressure = s.fec_work;
        link_starved = leb p.cfg.selector.starvation_windows p.starvation_count;
        can_demote = cooldown_ok p && p.leading.current_mcs == start;
        ts_ms = ts_ms_of s;
        probe_veto = probe_dirty (probe_at s target);
        probe_release = leb probe_clean_release_ticks p.probe_clean_ticks;
      }

  abbrev pub teach : LearnedPrior F → Option (ℕ × Class × F) → LearnedPrior F
  teach prior none = prior
  teach prior (some (rung, klass, snr)) = LearnedPrior.teach_failure prior (some rung) (some snr)

  -- What the tick learns once the rung is chosen.
  unfoldable pub finish : Policy F → Signals F → ℕ → LeadingSelector F → Policy F
  finish p s start chosen =
      let mcs = chosen.current_mcs in
      let ticks = if is_mcs mcs p.last_ingest_mcs then p.ticks_at_mcs + 1 else 0 in
      let taught = teach p.learned_prior chosen.last_fail in
      let learn =
        is_some s.snr
        && leb p.cfg.learned_prior.settle_ticks ticks
        && fl.lt s.residual_loss_w p.cfg.learned_prior.viable_loss in
      record p {
        leading = chosen;
        windows_since_demote = if ltb mcs start then 0 else p.windows_since_demote;
        ticks_at_mcs = ticks;
        last_ingest_mcs = some mcs;
        learned_prior =
            if learn then LearnedPrior.ingest taught s.snr (some mcs) true true else taught;
      }

  -- The policy before `select`, the arguments of `select`, and the reasons of the demotes so far.
  unfoldable pub prepare : Policy F → Signals F → Policy F × Inputs F × List (PolicyReason F)
  unfolding advance predict proactive watch_probe
  prepare p s =
      let start = p.leading.current_mcs in
      let (q, slope, why) = predict (advance p s) s.snr (ts_ms_of s) in
      let (r, why') = proactive q s.snr start (ts_ms_of s) in
      let u = watch_probe r s in (u, inputs_of u s slope start, why ++ why')

  -- The rest of the tick once `select` has returned.
  abbrev pub decided :
      Policy F
      → Signals F
      → Policy F
      → List (PolicyReason F)
      → Option (LeadingSelector F)
      → Option (Policy F × Decision F)
  decided p s u why none = none
  decided p s u why (some chosen) = some (
    finish u s p.leading.current_mcs chosen,
    record {
      timestamp = s.timestamp;
      mcs = chosen.current_mcs;
      reason = why ++ map PolicyReason.leading chosen.reasons;
    },
  )

  -- `tick`; `none` is the KeyError of `select`.
  unfoldable pub tick : Policy F → Signals F → Option (Policy F × Decision F)
  tick p s =
      let u = (prepare p s).0 in
      let i = (prepare p s).1 in decided p s u (prepare p s).2 (select u.leading i)
