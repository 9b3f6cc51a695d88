-- ===== src/Dynlink/Policy/State.antt =====
-- gs/fpvdgs/dynlink/policy.py: the configuration, the decision and the state of `Policy`, and a new session.
use Prim.Native.String.{String}
use text.Mathlib.Text.{◌==◌ as str_eq}
use fpvd.Prelude.{ℕ, ◌&&◌, Option, none, some, List, [], if◌then◌else◌}
use fpvd.Prelude.Int.{pos}
use fpvd.Prelude.Float.{Float}
use fpvd.Dynlink.Knee.{LearnedPriorConfig, Doc}
use fpvd.Dynlink.LearnedPrior
use fpvd.Dynlink.LearnedPrior.{LearnedPrior, lsq_slope}
use fpvd.Dynlink.Selector
use fpvd.Dynlink.Selector.{SelectorConfig, LeadingSelector, Class, Reason}
use fpvd.Dynlink.Signals.{Signals}

-- PROBE_CLEAN_RELEASE_TICKS
abbrev pub probe_clean_release_ticks : ℕ
probe_clean_release_ticks = 20

pub record PolicyConfig (F : Type 0) : Type 0 where
  pub selector : SelectorConfig F
  pub learned_prior : LearnedPriorConfig F
  pub link_width : ℕ

pub data PolicyReason (F : Type 0) : Type 0 where
  predict_demote snr_demote : (cur tgt : ℕ) → PolicyReason F
  leading : Reason F → PolicyReason F
  fast : PolicyReason F

pub record Decision (F : Type 0) : Type 0 where
  pub timestamp : F
  pub mcs : ℕ
  pub reason : List (PolicyReason F)

pub record Policy (F : Type 0) : Type 0 where
  pub cfg : PolicyConfig F
  pub leading : LeadingSelector F
  pub starvation_count : ℕ
  pub ticks_at_mcs : ℕ
  pub last_ingest_mcs : Option ℕ
  pub learned_prior : LearnedPrior F
  pub snr_window : List F
  pub predict_demote_count : ℕ
  pub snr_demote_count : ℕ
  pub windows_since_demote : ℕ
  pub probe_clean_ticks : ℕ
  pub probe_clean_rung : Option ℕ

module _ {F : Type 0} ⦃fl : Float F⦄ where
  abbrev pub boot : PolicyConfig F → LearnedPrior F → LeadingSelector F → Policy F
  boot cfg prior s = record {
    cfg = cfg;
    leading = s;
    starvation_count = 0;
    ticks_at_mcs = 0;
    last_ingest_mcs = none;
    learned_prior = prior;
    snr_window = [];
    predict_demote_count = 0;
    snr_demote_count = 0;
    windows_since_demote = cfg.selector.demote_cooldown_windows;
    probe_clean_ticks = 0;
    probe_clean_rung = none;
  }

  -- `none` is the ValueError of the selector's constructor.
  unfoldable pub new : (String → Option (Doc F)) → PolicyConfig F → String → Option (Policy F)
  new disk cfg profile_name = elim (Selector.new cfg.selector) [
    | none ↦ none
    | some s ↦ some (boot cfg (LearnedPrior.new disk profile_name cfg.learned_prior) s)
  ]

  -- `signals.timestamp * 1000.0 if signals.timestamp else 0.0`: a zero timestamp gives zero both ways.
  abbrev pub ts_ms_of : Signals F → F
  ts_ms_of s =
      if fl.le s.timestamp (fl.of_int (pos 0)) && fl.le (fl.of_int (pos 0)) s.timestamp
      then fl.decimal 0 0
      else fl.mul s.timestamp (fl.decimal 1000 0)

  -- `bind_learned_prior` with the key `<adapter>__bw<width>`, which the caller formats.
  unfoldable pub bind_learned_prior : (String → Option (Doc F)) → Policy F → String → Policy F
  bind_learned_prior disk p key =
      if str_eq p.learned_prior.key key
      then p
      else record p { learned_prior = LearnedPrior.new disk key p.cfg.learned_prior }

  unfoldable pub reset_for_new_session : Policy F → Option (Policy F)
  reset_for_new_session p = elim (Selector.new p.cfg.selector) [
    | none ↦ none
    | some s ↦ some (boot p.cfg p.learned_prior s)
  ]
