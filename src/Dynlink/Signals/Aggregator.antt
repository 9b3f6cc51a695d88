-- ===== src/Dynlink/Signals/Aggregator.antt =====
-- gs/fpvdgs/dynlink/signals.py: `SignalAggregator`, for the 100 ms windows and for the tap's records.
use fpvd.Prelude.{
  ℕ, ◌+◌, ◌/◌, Bool, ◌&&◌, Option, none, some, List, [], ◌∷◌, ltb, if◌then◌else◌, length, or_else,
  is_some, push_bounded,
}
use fpvd.Prelude.Int.{ℤ, pos, ◌+ℤ◌, ltb_ℤ}
use fpvd.Prelude.Float.{Float, max_float, min_float}
use fpvd.Prelude.Dict.{Dict, get?, put}
use fpvd.Dynlink.Signals.{Signals, SessionInfo, RxAnt, Packets, RxEvent, Micro}

-- MICROS_PER_WINDOW
abbrev pub micros_per_window : ℕ
micros_per_window = 10

-- The counters of a slot of the rolling window.
pub record Slot : Type 0 where
  pub payload : ℕ
  pub fec_rec : ℕ
  pub lost : ℕ
  pub out : ℕ

pub record SignalAggregator (F : Type 0) : Type 0 where
  pub ewma_alpha_rssi : F
  pub ewma_alpha_fec : F
  pub ewma_alpha_burst : F
  pub starvation_threshold_pps : F
  pub signals : Signals F
  pub micro : List Slot
  pub pending_lost : ℕ

abbrev pub total : (Slot → ℕ) → List Slot → ℕ
total field [] = 0
total field (x ∷ xs) = field x + total field xs

-- `max` and `min` of integers, and of a list that starts with `m`.
abbrev max_int : ℤ → ℤ → ℤ
max_int a b = if ltb_ℤ a b then b else a

abbrev min_int : ℤ → ℤ → ℤ
min_int a b = if ltb_ℤ b a then b else a

abbrev fold_ints : (ℤ → ℤ → ℤ) → (RxAnt → ℤ) → ℤ → List RxAnt → ℤ
fold_ints f field m [] = m
fold_ints f field m (a ∷ ants) = fold_ints f field (f m (field a)) ants

-- `max(ants, key=snr_avg)`: the first of the best.
abbrev pub best_ant : RxAnt → List RxAnt → RxAnt
best_ant best [] = best
best_ant best (a ∷ ants) = best_ant (if ltb_ℤ best.snr_avg a.snr_avg then a else best) ants

abbrev or_session : Option SessionInfo → Option SessionInfo → Option SessionInfo
or_session none kept = kept
or_session (some session) kept = some session

abbrev pub slot_of : Micro → Slot
slot_of rec = record {
  payload = rec.pkt_data;
  fec_rec = rec.pkt_fec_rec;
  lost = rec.pkt_lost;
  out = rec.pkt_out;
}

module _ {F : Type 0} ⦃fl : Float F⦄ where
  abbrev pub of_nat : ℕ → F
  of_nat n = fl.of_int (pos n)

  unfoldable pub micro_alpha : F → F
  micro_alpha alpha = fl.sub (fl.decimal 10 1) (
      fl.pow_float (fl.sub (fl.decimal 10 1) alpha)
        (fl.div (fl.decimal 10 1) (of_nat micros_per_window)))

  abbrev pub ewma_on : F → F → F → F
  ewma_on prev new alpha = fl.add (fl.mul alpha new) (fl.mul (fl.sub (fl.decimal 10 1) alpha) prev)

  -- `_ewma`
  abbrev pub ewma : Option F → F → F → F
  ewma none new alpha = new
  ewma (some prev) new alpha = ewma_on prev new alpha

  -- `d[k] = f(d.get(k, v), v)` for a real EVM slot of each antenna.
  abbrev by_dongle : (F → F → F) → (RxAnt → ℤ) → Dict F → List RxAnt → Dict F
  by_dongle f field d [] = d
  by_dongle f field d (a ∷ ants) =
      let v = fl.of_int (field a) in
      let k = a.ant / 256 in
      by_dongle f field
        (if ltb_ℤ (pos 0) a.evm_avg then put k (f (or_else (get? k d) v) v) d else d) ants

  abbrev fold_values : (F → F → F) → Dict F → Option F → Option F
  fold_values f [] m = m
  fold_values f ((k, v) ∷ d) none = fold_values f d (some v)
  fold_values f ((k, v) ∷ d) (some m) = fold_values f d (some (f m v))

  -- The EVM fields keep their values when no antenna has a real one.
  abbrev or_kept : Option F → Option F → Option F
  or_kept none kept = kept
  or_kept (some v) kept = some v

  -- `_fold_ants`, which is called with at least one antenna.
  unfoldable pub fold_ants : Signals F → List RxAnt → Signals F
  fold_ants s [] = s
  fold_ants s (a ∷ ants) =
      let best = best_ant a ants in
      let d_avg = by_dongle max_float RxAnt.evm_avg [] (a ∷ ants) in
      let d_min = by_dongle min_float RxAnt.evm_min [] (a ∷ ants) in
      record s {
        rssi_min_w = some (fl.of_int (fold_ints min_int RxAnt.rssi_min a.rssi_min ants));
        rssi_avg_w = some (
            fl.div (fl.of_int (fold_ints (λ m x. m +ℤ x) RxAnt.rssi_avg a.rssi_avg ants))
              (of_nat (length (a ∷ ants))));
        rssi_max_w = some (fl.of_int (fold_ints max_int RxAnt.rssi_avg a.rssi_avg ants));
        mcs_w = some best.mcs;
        ant_count = length (a ∷ ants);
        snr_w = some (fl.of_int best.snr_avg);
        evm_w = or_kept (fold_values max_float d_avg none) s.evm_w;
        evm_lo_w = or_kept (fold_values min_float d_avg none) s.evm_lo_w;
        evm_min_w = or_kept (fold_values min_float d_min none) s.evm_min_w;
      }

  -- A share of the primaries, and 0.0 when there are none.
  abbrev pub share : ℕ → ℕ → F
  share n primaries =
      if ltb 0 primaries then fl.div (of_nat n) (of_nat primaries) else fl.decimal 0 0

  -- A rate per second; WINDOW_S is 0.1.
  abbrev pub per_second : ℕ → F
  per_second n = fl.div (of_nat n) (fl.decimal 1 1)

  abbrev pub starved : SignalAggregator F → Option SessionInfo → F → Bool
  starved g session rate = is_some session && fl.lt rate g.starvation_threshold_pps

  -- The smoothing of the antennas' signals; SNR is only smoothed along with RSSI.
  abbrev smooth_known : F → Signals F → Option F → Option F → Signals F
  smooth_known alpha s none snr = s
  smooth_known alpha s (some rssi) none = record s { rssi_raw = some (ewma s.rssi_raw rssi alpha) }
  smooth_known alpha s (some rssi) (some snr) = record s {
    rssi_raw = some (ewma s.rssi_raw rssi alpha);
    snr = some (ewma s.snr snr alpha);
  }

  abbrev pub smooth_ants : F → Signals F → Signals F
  smooth_ants alpha s = smooth_known alpha s s.rssi_max_w s.snr_w

  -- The counters of a window.
  unfoldable pub fold_packets : SignalAggregator F → Signals F → Packets → Signals F
  fold_packets g s p =
      let lost = or_else p.lost 0 in
      let primaries = or_else p.out 0 + lost in
      let rate = per_second (or_else p.payload 0) in
      record s {
        residual_loss_w = share lost primaries;
        fec_work_rate_w = share (or_else p.fec_rec 0) primaries;
        packet_rate_w = rate;
        burst_rate_w = per_second (or_else p.bursts_rec 0);
        holdoff_rate_w = per_second (or_else p.holdoff 0);
        late_rate_w = per_second (or_else p.late_deadline 0);
      }

  unfoldable pub consume : SignalAggregator F → RxEvent F → SignalAggregator F
  consume g ev =
      let s = record g.signals {
        timestamp = ev.timestamp;
        windows_seen = g.signals.windows_seen + 1;
        session = or_session ev.session g.signals.session;
      } in
      let t = fold_ants (fold_packets g s ev.packets_window) ev.rx_ant_stats in
      let u =
        smooth_ants g.ewma_alpha_rssi
          (record t { link_starved_w = starved g t.session t.packet_rate_w }) in
      record g {
        signals = record u {
          fec_work = ewma_on u.fec_work u.fec_work_rate_w g.ewma_alpha_fec;
          burst_rate = ewma_on u.burst_rate u.burst_rate_w g.ewma_alpha_burst;
          holdoff_rate = ewma_on u.holdoff_rate u.holdoff_rate_w g.ewma_alpha_burst;
          late_rate = ewma_on u.late_rate u.late_rate_w g.ewma_alpha_burst;
        };
      }

  unfoldable pub update_session : SignalAggregator F → SessionInfo → SignalAggregator F
  update_session g session = record g { signals = record g.signals { session = some session } }

  unfoldable pub reset_smoothed : SignalAggregator F → SignalAggregator F
  reset_smoothed g = record g {
    signals = record g.signals { rssi = none; rssi_raw = none; snr = none };
  }

  unfoldable pub reset_micro_window : SignalAggregator F → SignalAggregator F
  reset_micro_window g = record g { micro = []; pending_lost = 0 }

  -- `_recompute_micro_window`
  unfoldable pub recompute_micro_window : SignalAggregator F → SignalAggregator F
  recompute_micro_window g =
      let lost = total Slot.lost g.micro + g.pending_lost in
      let primaries = total Slot.out g.micro + lost in
      let rate = per_second (total Slot.payload g.micro) in
      record g {
        signals = record g.signals {
          residual_loss_w = share lost primaries;
          fec_work_rate_w = share (total Slot.fec_rec g.micro) primaries;
          packet_rate_w = rate;
          link_starved_w = starved g g.signals.session rate;
        };
      }

  -- The antennas and the smoothing of a micro window.
  unfoldable pub smooth_micro : SignalAggregator F → List RxAnt → SignalAggregator F
  smooth_micro g ants =
      let s = smooth_ants (micro_alpha g.ewma_alpha_rssi) (fold_ants g.signals ants) in
      record g {
        signals = record s {
          fec_work = ewma_on s.fec_work s.fec_work_rate_w (micro_alpha g.ewma_alpha_fec);
        };
      }

  unfoldable pub consume_micro : SignalAggregator F → Micro → F → SignalAggregator F
  unfolding smooth_micro
  consume_micro g rec now_s =
      smooth_micro
        (recompute_micro_window (record g {
          signals = record g.signals { timestamp = now_s };
          micro = push_bounded micros_per_window g.micro (slot_of rec);
          pending_lost = 0;
        }))
        rec.rx_ant_stats

  unfoldable pub consume_loss : SignalAggregator F → ℕ → F → SignalAggregator F
  consume_loss g lost_count now_s = recompute_micro_window (record g {
    signals = record g.signals { timestamp = now_s };
    pending_lost = g.pending_lost + lost_count;
  })
