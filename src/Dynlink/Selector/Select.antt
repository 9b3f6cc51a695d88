-- ===== src/Dynlink/Selector/Select.antt =====
-- gs/fpvdgs/dynlink/policy.py: `LeadingSelector.select`, in the stages of its body.
use fpvd.Prelude.{
  ℕ, ◌+◌, ◌-◌, Bool, false, ◌&&◌, ◌||◌, not, Option, none, some, List, [], ◌∷◌, ◌++◌, ltb, leb,
  ◌==◌, if◌then◌else◌, push_bounded, or_else, min,
}
use fpvd.Prelude.Float.{Float, max_float}
use fpvd.Prelude.Dict.{get?, put, remove}
use fpvd.Dynlink.Selector.{
  LeadingSelector, Class, fade, flap, Reason, video_per_demote, emergency, snapback_promote,
  knee_promote, explore_promote, nought, emergency_active, charge_flap, suppressed, on_trial,
  classify, snapback_target, raw_min_release_window_ticks,
}

-- The keyword arguments of `select`.
pub record Inputs (F : Type 0) : Type 0 where
  pub snr_ewma : Option F
  pub snr_w : Option F
  pub slope : Option F
  pub loss_rate : F
  pub loss_demote : Bool
  pub target_confident : Bool
  pub target_blocked : Bool
  pub fec_pressure : F
  pub link_starved : Bool
  pub can_demote : Bool
  pub ts_ms : F
  pub probe_veto : Bool
  pub probe_release : Bool

abbrev above : Option ℕ → ℕ → Bool
above none cur = false
above (some sb) cur = ltb cur sb

module _ {F : Type 0} ⦃fl : Float F⦄ where
  abbrev push_known : List F → Option F → List F
  push_known xs none = xs
  push_known xs (some x) = push_bounded raw_min_release_window_ticks xs x

  -- The resets at the top of `select`. The local list `reasons` is kept in the selector from here.
  unfoldable pub begin : LeadingSelector F → Inputs F → LeadingSelector F
  begin s i = record s {
    reasons = [];
    last_fail = none;
    snapback_tgt = none;
    last_release = none;
    snr_w_recent = push_known s.snr_w_recent i.snr_w;
  }

  -- `commit`; at rung 0 the code's `prev - 1` is clamped to 0, as the truncated `-` is.
  unfoldable pub commit : ℕ → Reason F → F → LeadingSelector F → LeadingSelector F
  commit mcs why ts_ms s =
      let mcs' = min mcs s.cap_mcs in
      if mcs' == s.current_mcs then s else record s {
        current_mcs = mcs';
        last_change_time_ms = ts_ms;
        last_mcs_change_time_ms = ts_ms;
        clean_dwell = 0;
        reasons = s.reasons ++ why ∷ [];
      }

  -- The knee sample that a classified loss demote reports.
  abbrev pub fail_sample : ℕ → Class → Option F → Option F → Option (ℕ × Class × F)
  fail_sample prev fade snr_ewma (some snr_w) = some (prev, fade, snr_w)
  fail_sample prev flap (some snr_ewma) snr_w = some (prev, flap, snr_ewma)
  fail_sample prev _ snr_ewma snr_w = none

  unfoldable pub loss_step : LeadingSelector F → Inputs F → LeadingSelector F
  unfolding commit
  loss_step s i =
      let prev = s.current_mcs in
      let klass = classify s prev i.snr_ewma i.snr_w i.ts_ms in
      let t = commit (prev - 1) (video_per_demote i.loss_rate klass) i.ts_ms s in
      let u = record t { last_fail = fail_sample prev klass i.snr_ewma i.snr_w } in
      if t.current_mcs == prev
      then t
      else if on_trial s prev i.ts_ms
      then charge_flap u prev i.snr_ewma i.ts_ms
      else u

  unfoldable pub demote_step : LeadingSelector F → Inputs F → LeadingSelector F
  unfolding loss_step commit
  demote_step s i =
      if i.can_demote
      then (if i.loss_demote
          then loss_step s i
          else commit (s.current_mcs - 1) (emergency i.fec_pressure i.link_starved) i.ts_ms s)
      else s

  -- The branch of an emergency: at most one rung down, and a dirty tick in any case.
  unfoldable pub demote : LeadingSelector F → Inputs F → LeadingSelector F
  unfolding demote_step
  demote s i =
      let t = demote_step s i in
      record t {
        trial_rung = if t.current_mcs == s.current_mcs then t.trial_rung else none;
        clean_dwell = 0;
      }

  abbrev pub clear_flaps : LeadingSelector F → LeadingSelector F
  clear_flaps s = record s {
    flap_level = remove s.current_mcs s.flap_level;
    suppress_until_ms = remove s.current_mcs s.suppress_until_ms;
    snr_at_last_flap = remove s.current_mcs s.snr_at_last_flap;
    last_flap_ms = remove s.current_mcs s.last_flap_ms;
  }

  -- The high-water mark of a confirmation: raised while the last one is live, else set anew.
  abbrev pub high_water : LeadingSelector F → F → F → F
  high_water s snr_ewma ts_ms =
      if fl.le ts_ms (or_else (get? s.current_mcs s.confirmed_until_ms) nought)
      then elim (get? s.current_mcs s.confirmed_snr) [
        | none ↦ snr_ewma
        | some prev_conf ↦ max_float prev_conf snr_ewma
      ]
      else snr_ewma

  abbrev pub confirm : LeadingSelector F → F → F → LeadingSelector F
  confirm s snr_ewma ts_ms = record s {
    confirmed_until_ms = put s.current_mcs (fl.add ts_ms s.cfg.confirm_ttl_ms) s.confirmed_until_ms;
    confirmed_snr = put s.current_mcs (high_water s snr_ewma ts_ms) s.confirmed_snr;
  }

  abbrev pub confirm_known : LeadingSelector F → Option F → F → LeadingSelector F
  confirm_known s none ts_ms = s
  confirm_known s (some snr_ewma) ts_ms =
      if leb s.cfg.promote_dwell_ticks s.clean_dwell then confirm s snr_ewma ts_ms else s

  -- Clean-tick bookkeeping: dwell, damper clear, confirmation, end of a trial.
  unfoldable pub note_clean : LeadingSelector F → Inputs F → LeadingSelector F
  note_clean s i =
      let t = record s { clean_dwell = s.clean_dwell + 1 } in
      let u = if leb t.cfg.flap_reset_clean_dwell_ticks t.clean_dwell then clear_flaps t else t in
      let v = confirm_known u i.snr_ewma i.ts_ms in
      record v { trial_rung = if fl.le v.trial_until_ms i.ts_ms then none else v.trial_rung }

  abbrev pub within : LeadingSelector F → Inputs F → F → Bool
  within s i limit = fl.lt (fl.sub i.ts_ms s.last_change_time_ms) limit

  -- The three routes, tried in order, once rate limit, damper and probe let a promote through.
  unfoldable pub routes : LeadingSelector F → Inputs F → Option ℕ → LeadingSelector F
  unfolding commit
  routes s i sb =
      let slope = or_else i.slope nought in
      let t = record s { snapback_tgt = sb } in
      let target = s.current_mcs + 1 in
      if above sb s.current_mcs && fl.le nought slope && not i.target_blocked
      then commit target (snapback_promote (or_else sb 0)) i.ts_ms t
      else if not (within s i s.cfg.hold_modes_down_ms)
          && leb s.cfg.promote_dwell_ticks s.clean_dwell
          && fl.le s.cfg.promote_slope_min slope
      then (if i.target_confident && not i.target_blocked
          then commit target knee_promote i.ts_ms t
          else if not i.target_confident
          then commit target explore_promote i.ts_ms t
          else t)
      else t

  -- A rung that was just entered is on trial.
  unfoldable pub start_trial : ℕ → F → LeadingSelector F → LeadingSelector F
  start_trial prev ts_ms s =
      if ltb prev s.current_mcs
      then record s {
        trial_rung = some s.current_mcs;
        trial_until_ms = fl.add ts_ms s.cfg.trial_window_ms;
      }
      else s

  -- `none` is the KeyError of `_snapback_target`.
  unfoldable pub promote_known : LeadingSelector F → Inputs F → F → Option (LeadingSelector F)
  unfolding routes start_trial
  promote_known s i snr_ewma =
      let (t, held) = suppressed s (s.current_mcs + 1) i.ts_ms i.probe_release in
      let u = record t { promote_suppressed = held } in
      if not (within u i u.cfg.min_between_changes_ms) && not held && not i.probe_veto
      then elim (snapback_target u snr_ewma i.ts_ms) [
        | none ↦ none
        | some sb ↦ some (start_trial u.current_mcs i.ts_ms (routes u i sb))
      ]
      else some (start_trial u.current_mcs i.ts_ms u)

  unfoldable pub promote : LeadingSelector F → Inputs F → Option F → Option (LeadingSelector F)
  unfolding promote_known
  promote s i none = some (record s { promote_suppressed = false })
  promote s i (some snr_ewma) =
      if ltb s.cap_mcs (s.current_mcs + 1)
      then some (record s { promote_suppressed = false })
      else promote_known s i snr_ewma

  abbrev pub is_emergency : LeadingSelector F → Inputs F → Bool
  is_emergency s i = i.loss_demote || emergency_active s.cfg i.fec_pressure i.link_starved

  -- `select`: the new selector; the code also returns its rung and whether that changed.
  unfoldable pub select : LeadingSelector F → Inputs F → Option (LeadingSelector F)
  unfolding begin demote note_clean promote
  select s i =
      let t = begin s i in
      if is_emergency s i then some (demote t i) else promote (note_clean t i) i i.snr_ewma
