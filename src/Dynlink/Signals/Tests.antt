-- ===== src/Dynlink/Signals/Tests.antt =====
-- The aggregator in fixed-point numbers, and its properties there.
use fpvd.Prelude.{ℕ, ◌+◌, ◌++◌, ◌≡◌, refl, none, some, List, [], ◌∷◌}
use fpvd.Prelude.Int.{ℤ, pos}
use fpvd.Prelude.Fixed.{milli}
use fpvd.Dynlink.Signals.{RxEvent, Micro, no_signals}
use fpvd.Dynlink.Signals.Aggregator.{
  SignalAggregator, Slot, total, micros_per_window, share, per_second,
}
use fpvd.Dynlink.Signals.Windows.{
  Record, micro_record, loss_record, feed, feed_all, tap_window, last, slots, unsettled, lost_in,
}
use fpvd.Dynlink.Signals.FixedShares.{milli-HasShares}
use fpvd.Dynlink.Signals.Rates.{InUnit, window, absorb, absorb-InUnit}

abbrev fresh : SignalAggregator ℤ
fresh = record {
  ewma_alpha_rssi = pos 200;
  ewma_alpha_fec = pos 200;
  ewma_alpha_burst = pos 100;
  starvation_threshold_pps = pos 50_000;
  signals = no_signals ⦃fl = milli⦄;
  micro = [];
  pending_lost = 0;
}

abbrev one_in_four : RxEvent ℤ
one_in_four = record {
  timestamp = pos 100;
  packets_window = record {
    out = some 30;
    lost = some 10;
    fec_rec = none;
    payload = some 60;
    bursts_rec = none;
    holdoff = none;
    late_deadline = none;
  };
  rx_ant_stats = [];
  session = none;
}

absorb-InUnit_run :
    InUnit milli (absorb ⦃fl = milli⦄ fresh (window one_in_four)).signals.residual_loss_w
absorb-InUnit_run = absorb-InUnit ⦃fl = milli⦄ milli-HasShares fresh (window one_in_four)

abbrev slot : ℕ → ℕ → Micro
slot lost out = record {
  pkt_data = out;
  pkt_fec_rec = 0;
  pkt_lost = lost;
  pkt_out = out;
  rx_ant_stats = [];
}

abbrev records : List (Record ℤ)
records =
    micro_record (slot 0 9) (pos 10)
    ∷ loss_record 3 (pos 15)
    ∷ micro_record (slot 4 6) (pos 20)
    ∷ []

tap_window_example :
    let h = feed ⦃fl = milli⦄ (feed_all ⦃fl = milli⦄ fresh records) (loss_record 1 (pos 25)) in
    let window = last micros_per_window (slots (records ++ loss_record 1 (pos 25) ∷ [])) in
    let pending = unsettled fresh.pending_lost (records ++ loss_record 1 (pos 25) ∷ []) in
    let lost = lost_in window pending in
    (h.micro ≡ window)
    × (h.pending_lost ≡ pending)
    × (h.signals.residual_loss_w ≡ share ⦃fl = milli⦄ lost (total Slot.out window + lost))
    × (h.signals.packet_rate_w ≡ per_second ⦃fl = milli⦄ (total Slot.payload window))
tap_window_example = tap_window ⦃fl = milli⦄ fresh records (loss_record 1 (pos 25)) refl
