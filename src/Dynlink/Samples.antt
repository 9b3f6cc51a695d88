-- ===== src/Dynlink/Samples.antt =====
-- Concrete data for the witnesses of the link controller, in fixed-point numbers.
use fpvd.Prelude.{ℕ, Bool, false, Option, some, [], arith}
use fpvd.Prelude.Int.{ℤ, pos}
use fpvd.Prelude.Fixed.{milli}
use fpvd.Dynlink.Knee
use fpvd.Dynlink.LearnedPrior.{LearnedPrior}
use fpvd.Dynlink.Selector.{LeadingSelector, start_with}
use fpvd.Dynlink.Selector.Select.{Inputs}
use fpvd.Dynlink.Selector.Bounds.{IsValid}
use fpvd.Dynlink.Signals.{Signals, no_signals}
use fpvd.Dynlink.Policy.{Policy, boot}
use fpvd.Dynlink.Defaults.{selector_config, learned_prior_config, policy_config}

-- The number n / 1000.
abbrev pub num : ℕ → ℤ
num n = pos n

abbrev pub prior0 : LearnedPrior ℤ
prior0 = record {
  key = "wlan0__bw20";
  cfg = learned_prior_config ⦃fl = milli⦄;
  ephemeral = false;
  snr_model = Knee.new ⦃fl = milli⦄ (learned_prior_config ⦃fl = milli⦄);
  since_flush = 0;
  writes = [];
}

abbrev pub selector0 : LeadingSelector ℤ
selector0 = start_with ⦃fl = milli⦄ (selector_config ⦃fl = milli⦄) 7

abbrev pub policy0 : Policy ℤ
policy0 = boot ⦃fl = milli⦄ (policy_config ⦃fl = milli⦄) prior0 selector0

pub selector0-IsValid : IsValid selector0
unfolding start_with
selector0-IsValid = record { in_cap = ground arith; has_snr = tt }

-- A window at time `t` in thousandths of a second, with an SNR and a loss.
abbrev pub window_at : ℕ → Option ℤ → ℤ → Signals ℤ
window_at t snr loss = record (no_signals ⦃fl = milli⦄) {
  snr_w = snr;
  residual_loss_w = loss;
  packet_rate_w = pos 500_000;
  snr = snr;
  timestamp = pos t;
  windows_seen = t;
}

-- The arguments of `select` at `t` thousandths of a millisecond.
abbrev pub inputs_at : ℕ → Option ℤ → (loss_demote can_demote confident : Bool) → Inputs ℤ
inputs_at t snr loss_demote can_demote confident = record {
  snr_ewma = snr;
  snr_w = snr;
  slope = some (pos 0);
  loss_rate = pos 0;
  loss_demote = loss_demote;
  target_confident = confident;
  target_blocked = false;
  fec_pressure = pos 0;
  link_starved = false;
  can_demote = can_demote;
  ts_ms = pos t;
  probe_veto = false;
  probe_release = false;
}
