-- ===== src/Wfb/StatsHub/Tests.antt =====
-- The hub with two children and a consumer.
use fpvd.Prelude.{ℕ, ◌≡◌, refl, true, false, none, some, List, [], ◌∷◌, ◌++◌, arith}
use fpvd.Prelude.Int.{ℤ, pos, negsuc, ◌+ℤ◌, ◌-ℤ◌, ◌*ℤ◌}
use fpvd.Prelude.Dict.{get?, put}
use fpvd.Prelude.Fixed.{milli}
use fpvd.Wfb.TxSelector.{
  TxSelector, insert_row, sorted_rows, group_rows, rank_groups, keys, best_from, candidates,
  current_rssi, ranked, near_max, switch_to, select,
}
use fpvd.Wfb.StatsHub.{StatsHub, Subscription, Packets, Rssi, ant_sel, rssi}
use fpvd.Wfb.StatsHub.Merge.{AntWindow, merge_ants, merge_all, average_all, stats_agg}
use fpvd.Wfb.StatsHub.Window.{max_pair, total, rssi_of, aggregate_window}
use fpvd.Wfb.StatsHub.Reports.{Reported, aggregate_window-Reported}
use fpvd.Wfb.StatsHub.Delivery.{
  Input, rx, tx, produce_batches, events_of, Listens, produce_batches-Listens,
}
use fpvd.Wfb.StatsHub.Closing.{Act, source, hub_closes, window_ends, loop_closes}

abbrev selector : TxSelector ℤ
selector = record {
  cfg = record {
    rssi_delta_db = pos 3;
    counter_rel_delta = milli.decimal 1 1;
    counter_abs_delta = pos 3;
  };
  rx_only_wlan_ids = [];
  current = some 1;
}

abbrev consumer : Subscription ℤ
consumer = record { queue = []; seen = []; closed_event = false; loop_open = true; listed = true }

abbrev ant_of : ℕ → ℤ → ℤ → ℤ → AntWindow
ant_of pkts low mean high = record {
  pkt_s = pkts;
  rssi_min = low;
  rssi_avg = mean;
  rssi_max = high;
  snr_min = pos 10;
  snr_avg = pos 20;
  snr_max = pos 30;
}

abbrev counted : ℕ → Packets
counted bad = record { dec_err = 0; bad = bad; lost = 4; fec_rec = 2 }

-- Antenna 0 is heard by both children, antenna 256 by one.
abbrev hub : StatsHub ℤ
hub = record {
  txsel = selector;
  closed = false;
  subs = consumer ∷ [];
  rssi_cbs = 7 ∷ [];
  ant_sel_cbs = 9 ∷ [];
  raw_listeners = [];
  cur =
      (
        "video_rx",
        (
          ((0, ant_of 3 (negsuc 60) (negsuc 50) (negsuc 40))
              ∷ (256, ant_of 3 (negsuc 90) (negsuc 80) (negsuc 70))
              ∷ []),
          counted 0,
        ),
      )
      ∷ ("mavlink_rx", (((0, ant_of 4 (negsuc 65) (negsuc 51) (negsuc 45)) ∷ []), counted 1))
      ∷ [];
  sessions = [];
  calls = [];
}

abbrev levels_now : Rssi
levels_now = record {
  mav_rssi = negsuc 51;
  mav_noise = negsuc 71;
  rx_errors = 9;
  rx_fec = 4;
  flags = 2;
}

-- The selection moves to card 0, and the callbacks are told. The mean of -51 three times and -52 four
-- times rounds down to -52.
told : (aggregate_window ⦃fl = milli⦄ hub).1.calls ≡ ant_sel 9 (some 0) ∷ rssi 7 levels_now ∷ []
unfolding aggregate_window stats_agg merge_all merge_ants average_all max_pair total rssi_of select
    ranked near_max switch_to insert_row sorted_rows group_rows rank_groups keys best_from
    candidates current_rssi get? put milli ◌+ℤ◌ ◌-ℤ◌ ◌*ℤ◌
told = refl

aggregate_window-Reported_example : Reported hub.cur (aggregate_window ⦃fl = milli⦄ hub)
aggregate_window-Reported_example = aggregate_window-Reported ⦃fl = milli⦄ hub (ground arith)

abbrev batches : List (List (Input ℤ))
batches =
    (rx (pos 1) "video_rx" (counted 0) [] none ∷ tx (pos 2) "mavlink_tx" [] ∷ [])
    ∷ []
    ∷ (tx (pos 3) "mavlink_tx" [] ∷ [])
    ∷ []

produce_batches-Listens_example :
    Listens (produce_batches hub 0 batches) 0 false [] ([] ++ events_of (some 1) batches)
produce_batches-Listens_example = produce_batches-Listens hub 0 false [] batches refl (ground arith)

abbrev acts : List (Act ℤ)
acts = source (pos 4) ∷ loop_closes 0 ∷ hub_closes ∷ source (pos 5) ∷ window_ends ∷ []
