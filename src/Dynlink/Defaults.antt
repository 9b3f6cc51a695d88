-- ===== src/Dynlink/Defaults.antt =====
-- The default values of the configuration dataclasses: `SelectorConfig` and `PolicyConfig` of
-- gs/fpvdgs/dynlink/policy.py, and `LearnedPriorConfig` of gs/fpvdgs/dynlink/learned_prior.py.
use fpvd.Prelude.{ℕ}
use fpvd.Prelude.Int.{pos}
use fpvd.Prelude.Float.{Float}
use fpvd.Dynlink.Knee.{LearnedPriorConfig}
use fpvd.Dynlink.Selector.{SelectorConfig}
use fpvd.Dynlink.Policy.{PolicyConfig}

module _ {F : Type 0} ⦃fl : Float F⦄ where
  abbrev int : ℕ → F
  int n = fl.of_int (pos n)

  abbrev pub selector_config : SelectorConfig F
  selector_config = record {
    video_demote_per = fl.decimal 5 2;
    emergency_fec_pressure = fl.decimal 80 2;
    max_mcs = pos 7;
    hold_modes_down_ms = int 2000;
    min_between_changes_ms = int 200;
    starvation_windows = 5;
    demote_cooldown_windows = 3;
    snr_demote_debounce = 2;
    snr_promote_margin_db = fl.decimal 10 1;
    snr_demote_margin_db = fl.decimal 15 1;
    flap_base_backoff_ms = int 2000;
    flap_backoff_mult = fl.decimal 20 1;
    flap_backoff_cap_ms = int 10000;
    flap_reset_clean_dwell_ticks = 30;
    promote_dwell_ticks = 30;
    promote_slope_min = fl.neg (fl.decimal 5 2);
    trial_window_ms = int 10000;
    collapse_delta_db = fl.decimal 40 1;
    flap_snr_release_db = fl.decimal 30 1;
    flap_decay_ms = int 60000;
    snapback_recover_margin_db = fl.decimal 30 1;
    confirm_ttl_ms = int 60000;
  }

  abbrev pub learned_prior_config : LearnedPriorConfig F
  learned_prior_config = record {
    settle_ticks = 5;
    viable_loss = fl.decimal 5 2;
    alpha_tighten = fl.decimal 25 2;
    alpha_relax = fl.decimal 5 2;
    min_samples = fl.decimal 80 1;
    recency_decay = fl.decimal 9995 4;
    predictive_horizon_ticks = 3;
    predictive_slope_window_ticks = 10;
    predictive_min_drop_db = fl.decimal 10 1;
    predictive_debounce_windows = 3;
    predictive_demote_margin_db = fl.decimal 15 1;
    flush_interval_observations = 50;
  }

  abbrev pub policy_config : PolicyConfig F
  policy_config = record {
    selector = selector_config;
    learned_prior = learned_prior_config;
    link_width = 20;
  }
