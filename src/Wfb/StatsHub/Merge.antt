-- ===== src/Wfb/StatsHub/Merge.antt =====
-- `StatsHub._stats_agg_by_freq_and_rxid`: the antennas of all children, merged by their ids. Counts of
-- packets and ids of antennas are natural numbers; RSSI and SNR are integers.
use Prim.Native.String.{String}
use fpvd.Prelude.{ℕ, zero, suc, ◌+◌, Option, none, some, List, [], ◌∷◌}
use fpvd.Prelude.Int.{ℤ, pos, ◌+ℤ◌, ◌*ℤ◌, floor_div, min_ℤ, max_ℤ}
use fpvd.Prelude.Dict.{Dict, get?, put}

-- The first seven values of an antenna; in the running sums the averages are totals.
pub record AntWindow : Type 0 where
  pub pkt_s : ℕ
  pub rssi_min : ℤ
  pub rssi_avg : ℤ
  pub rssi_max : ℤ
  pub snr_min : ℤ
  pub snr_avg : ℤ
  pub snr_max : ℤ

-- `v`, with the averages weighted.
abbrev pub weighted : AntWindow → AntWindow
weighted v = record v { rssi_avg = v.rssi_avg *ℤ pos v.pkt_s; snr_avg = v.snr_avg *ℤ pos v.pkt_s }

abbrev pub joined : AntWindow → AntWindow → AntWindow
joined v tmp = record {
  pkt_s = v.pkt_s + tmp.pkt_s;
  rssi_min = min_ℤ v.rssi_min tmp.rssi_min;
  rssi_avg = (v.rssi_avg *ℤ pos v.pkt_s) +ℤ tmp.rssi_avg;
  rssi_max = max_ℤ v.rssi_max tmp.rssi_max;
  snr_min = min_ℤ v.snr_min tmp.snr_min;
  snr_avg = (v.snr_avg *ℤ pos v.pkt_s) +ℤ tmp.snr_avg;
  snr_max = max_ℤ v.snr_max tmp.snr_max;
}

abbrev pub merge_with : Option AntWindow → AntWindow → AntWindow
merge_with none v = weighted v
merge_with (some tmp) v = joined v tmp

-- The antennas of one child; a key of another frequency may have the same id.
unfoldable pub merge_ants : List (ℕ × AntWindow) → Dict AntWindow → Dict AntWindow
merge_ants [] agg = agg
merge_ants ((ant_id, v) ∷ ants) agg =
    merge_ants ants (put ant_id (merge_with (get? ant_id agg) v) agg)

unfoldable pub merge_all : List (String × List (ℕ × AntWindow)) → Dict AntWindow → Dict AntWindow
merge_all [] agg = agg
merge_all ((child, ants) ∷ stats) agg = merge_all stats (merge_ants ants agg)

-- The totals become averages; a division by 0 packets raises ZeroDivisionError.
abbrev pub averaged : AntWindow → Option AntWindow
averaged v = elim v.pkt_s [
  | zero ↦ none
  | suc n ↦
      some (record v {
        rssi_avg = floor_div v.rssi_avg (suc n);
        snr_avg = floor_div v.snr_avg (suc n);
      })
]

abbrev pub cons_both : ℕ → Option AntWindow → Option (Dict AntWindow) → Option (Dict AntWindow)
cons_both k (some v) (some m) = some ((k, v) ∷ m)
cons_both k _ _ = none

unfoldable pub average_all : Dict AntWindow → Option (Dict AntWindow)
average_all [] = some []
average_all ((ant_id, v) ∷ agg) = cons_both ant_id (averaged v) (average_all agg)

unfoldable pub stats_agg : List (String × List (ℕ × AntWindow)) → Option (Dict AntWindow)
stats_agg ant_stats_by_rx = average_all (merge_all ant_stats_by_rx [])
