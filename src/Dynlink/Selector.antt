-- ===== src/Dynlink/Selector.antt =====
-- gs/fpvdgs/dynlink/policy.py: the configuration and the state of `LeadingSelector`, its helpers and
-- the flap damper. `select` is in the child module `Select`.
-- Rungs are native numbers. A log text is kept as the values that it is formatted from.
pub mod Select
pub mod Damper
pub mod Damped
pub mod Fixed
pub mod Bounds
pub mod Promote
mod Tests
use fpvd.Prelude.{
  ℕ, zero, suc, ◌+◌, ◌-◌, ◌≡◌, Bool, true, false, ◌&&◌, ◌||◌, not, Option, none, some, List, [],
  ◌∷◌, ◌++◌, ltb, leb, ◌==◌, if◌then◌else◌, length, push_bounded, or_else, min, max, is_some,
}
use fpvd.Prelude.Int.{ℤ, pos, negsuc, ◌-ℤ◌, pos_part}
use fpvd.Prelude.Float.{Float, min_float, max_float}
use fpvd.Prelude.Dict.{Dict, get?, put}

-- RAW_MIN_RELEASE_WINDOW_TICKS
abbrev pub raw_min_release_window_ticks : ℕ
raw_min_release_window_ticks = 20

pub record SelectorConfig (F : Type 0) : Type 0 where
  pub video_demote_per : F
  pub emergency_fec_pressure : F
  pub max_mcs : ℤ
  pub hold_modes_down_ms : F
  pub min_between_changes_ms : F
  pub starvation_windows : ℕ
  pub demote_cooldown_windows : ℕ
  pub snr_demote_debounce : ℕ
  pub snr_promote_margin_db : F
  pub snr_demote_margin_db : F
  pub flap_base_backoff_ms : F
  pub flap_backoff_mult : F
  pub flap_backoff_cap_ms : F
  pub flap_reset_clean_dwell_ticks : ℕ
  pub promote_dwell_ticks : ℕ
  pub promote_slope_min : F
  pub trial_window_ms : F
  pub collapse_delta_db : F
  pub flap_snr_release_db : F
  pub flap_decay_ms : F
  pub snapback_recover_margin_db : F
  pub confirm_ttl_ms : F

-- The failure signature of a loss demote.
pub data Class : Type 0 where
  fade flap burst : Class

pub data Release : Type 0 where
  timer raw_min probe : Release

pub data Reason (F : Type 0) : Type 0 where
  video_per_demote : (loss : F) → Class → Reason F
  emergency : (fec : F) (starved : Bool) → Reason F
  snapback_promote : (tgt : ℕ) → Reason F
  knee_promote explore_promote : Reason F

-- `LeadingState` (the first three fields after `cap_mcs`) and the fields of `LeadingSelector`.
pub record LeadingSelector (F : Type 0) : Type 0 where
  pub cfg : SelectorConfig F
  pub cap_mcs : ℕ
  pub current_mcs : ℕ
  pub last_change_time_ms : F
  pub last_mcs_change_time_ms : F
  pub reasons : List (Reason F)
  pub clean_dwell : ℕ
  pub flap_level : Dict ℕ
  pub suppress_until_ms : Dict F
  pub snr_at_last_flap : Dict F
  pub last_flap_ms : Dict F
  pub snr_w_recent : List F
  pub last_release : Option Release
  pub promote_suppressed : Bool
  pub trial_rung : Option ℕ
  pub trial_until_ms : F
  pub confirmed_until_ms : Dict F
  pub confirmed_snr : Dict F
  pub snapback_tgt : Option ℕ
  pub last_fail : Option (ℕ × Class × F)

abbrev is_rung : ℕ → Option ℕ → Bool
is_rung rung none = false
is_rung rung (some t) = rung == t

abbrev better : ℕ → Option ℕ → Option ℕ
better r none = some r
better r (some best) = if ltb best r then some r else some best

module _ {F : Type 0} ⦃fl : Float F⦄ where
  abbrev pub nought : F
  nought = fl.decimal 0 0

  -- -1.0e9: a change long ago.
  abbrev long_ago : F
  long_ago = fl.of_int (negsuc 999_999_999)

  -- `int(cfg.max_mcs)` below 0 raises ValueError, which is `none`; the first rung is 1, or the cap
  -- if that is lower.
  unfoldable pub start_with : SelectorConfig F → ℕ → LeadingSelector F
  start_with cfg cap = record {
    cfg = cfg;
    cap_mcs = cap;
    current_mcs = if ltb cap 1 then cap else 1;
    last_change_time_ms = long_ago;
    last_mcs_change_time_ms = long_ago;
    reasons = [];
    clean_dwell = 0;
    flap_level = [];
    suppress_until_ms = [];
    snr_at_last_flap = [];
    last_flap_ms = [];
    snr_w_recent = [];
    last_release = none;
    promote_suppressed = false;
    trial_rung = none;
    trial_until_ms = nought;
    confirmed_until_ms = [];
    confirmed_snr = [];
    snapback_tgt = none;
    last_fail = none;
  }

  from_cap : SelectorConfig F → ℤ → Option (LeadingSelector F)
  unfolding start_with
  from_cap cfg (pos cap) = some (start_with cfg cap)
  from_cap cfg (negsuc n) = none

  unfoldable pub new : SelectorConfig F → Option (LeadingSelector F)
  unfolding from_cap
  new cfg = from_cap cfg cfg.max_mcs

  unfoldable pub emergency_active : SelectorConfig F → F → Bool → Bool
  emergency_active cfg fec_pressure link_starved =
      fl.le cfg.emergency_fec_pressure fec_pressure || link_starved

  -- `int` rounds to an integer, which `min` compares with the cap as a number.
  unfoldable pub flap_backoff_ms : SelectorConfig F → ℕ → F
  flap_backoff_ms cfg level =
      min_float
        (fl.of_int (
          fl.trunc
            (fl.mul cfg.flap_base_backoff_ms (fl.pow cfg.flap_backoff_mult (min (level - 1) 40)))))
        cfg.flap_backoff_cap_ms

  -- `max(0, lvl - int((ts_ms - last) / flap_decay_ms))`
  abbrev decayed : SelectorConfig F → ℕ → F → F → ℕ
  decayed cfg level last ts_ms =
      pos_part (pos level -ℤ fl.trunc (fl.div (fl.sub ts_ms last) cfg.flap_decay_ms))

  unfoldable pub effective_flap_level : LeadingSelector F → ℕ → F → ℕ
  effective_flap_level s rung ts_ms =
      let lvl = or_else (get? rung s.flap_level) 0 in
      elim (get? rung s.last_flap_ms) [
        | none ↦ lvl
        | some last ↦
            if not (lvl == 0) && fl.lt (fl.of_int (pos 0)) s.cfg.flap_decay_ms
            then decayed s.cfg lvl last ts_ms
            else lvl
      ]

  abbrev put_known : ℕ → Option F → Dict F → Dict F
  put_known k none d = d
  put_known k (some v) d = put k v d

  unfoldable pub charge_flap : LeadingSelector F → ℕ → Option F → F → LeadingSelector F
  charge_flap s rung snr_ewma ts_ms =
      let lvl = effective_flap_level s rung ts_ms + 1 in
      record s {
        flap_level = put rung lvl s.flap_level;
        last_flap_ms = put rung ts_ms s.last_flap_ms;
        suppress_until_ms = put rung (fl.add ts_ms (flap_backoff_ms s.cfg lvl)) s.suppress_until_ms;
        snr_at_last_flap = put_known rung snr_ewma s.snr_at_last_flap;
      }

  -- `min` of a list that is not empty; `min([])` raises, and is not reached below.
  abbrev pub min_list : F → List F → F
  min_list m [] = m
  min_list m (x ∷ xs) = min_list (min_float m x) xs

  abbrev pub min_at_least : List F → F → Bool
  min_at_least [] bound = false
  min_at_least (x ∷ xs) bound = fl.le bound (min_list x xs)

  -- The raw-SNR release: a full window whose minimum clears the SNR of the last flap.
  abbrev pub raw_min_clear : LeadingSelector F → ℕ → Bool
  raw_min_clear s rung = elim (get? rung s.snr_at_last_flap) [
    | none ↦ false
    | some laf ↦
        length s.snr_w_recent == raw_min_release_window_ticks
        && min_at_least s.snr_w_recent (fl.add laf s.cfg.flap_snr_release_db)
  ]

  abbrev is_nought : F → Bool
  is_nought x = fl.le x (fl.of_int (pos 0)) && fl.le (fl.of_int (pos 0)) x

  -- The selector with `last_release` set, and whether the damper holds the rung.
  unfoldable pub suppressed : LeadingSelector F → ℕ → F → Bool → LeadingSelector F × Bool
  suppressed s rung ts_ms probe_release =
      let until = or_else (get? rung s.suppress_until_ms) (fl.of_int (pos 0)) in
      if fl.le until ts_ms
      then (if is_nought until then s else record s { last_release = some timer }, false)
      else if probe_release
      then (record s { last_release = some probe }, false)
      else if raw_min_clear s rung
      then (record s { last_release = some raw_min }, false)
      else (s, true)

  -- `rung == self._trial_rung and ts_ms < self._trial_until_ms`
  abbrev pub on_trial : LeadingSelector F → ℕ → F → Bool
  on_trial s rung ts_ms = is_rung rung s.trial_rung && fl.lt ts_ms s.trial_until_ms

  abbrev pub collapsed : SelectorConfig F → Option F → Option F → Bool
  collapsed cfg (some snr_ewma) (some snr_w) = fl.le snr_w (fl.sub snr_ewma cfg.collapse_delta_db)
  collapsed cfg _ _ = false

  unfoldable pub classify : LeadingSelector F → ℕ → Option F → Option F → F → Class
  classify s rung snr_ewma snr_w ts_ms =
      if collapsed s.cfg snr_ewma snr_w then fade else if on_trial s rung ts_ms then flap else burst

  -- The loop of `_snapback_target`; `none` is the KeyError of `_confirmed_snr[r]`.
  pub snapback_from : LeadingSelector F → F → F → Option ℕ → Dict F → Option (Option ℕ)
  snapback_from s snr_ewma ts_ms best [] = some best
  snapback_from s snr_ewma ts_ms best ((r, until) ∷ rest) =
      if fl.lt until ts_ms || ltb s.cap_mcs r
      then snapback_from s snr_ewma ts_ms best rest
      else elim (get? r s.confirmed_snr) [
        | none ↦ none
        | some conf ↦
            snapback_from s snr_ewma ts_ms
              (if fl.le (fl.sub conf s.cfg.snapback_recover_margin_db) snr_ewma
                then better r best
                else best)
              rest
      ]

  unfoldable pub snapback_target : LeadingSelector F → F → F → Option (Option ℕ)
  unfolding snapback_from
  snapback_target s snr_ewma ts_ms = snapback_from s snr_ewma ts_ms none s.confirmed_until_ms

  unfoldable pub external_demote : LeadingSelector F → ℕ → F → LeadingSelector F
  external_demote s tgt ts_ms =
      let tgt' = min tgt s.cap_mcs in
      if tgt' == s.current_mcs then s else record s {
        current_mcs = tgt';
        last_change_time_ms = ts_ms;
        last_mcs_change_time_ms = ts_ms;
        clean_dwell = 0;
        trial_rung = none;
      }
