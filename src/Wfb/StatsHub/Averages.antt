-- ===== src/Wfb/StatsHub/Averages.antt =====
-- The averages that the merge returns lie between the extremes that it returns.
use Prim.Native.String.{String}
use fpvd.Prelude.{ℕ, zero, suc, ◌<◌, ◌==◌, Option, none, some, List, [], ◌∷◌, arith, if_ind, All}
use fpvd.Prelude.Int.Order.{
  Le, ScaledLe, LeScaled, mul-ScaledLe, mul-LeScaled, add-ScaledLe, add-LeScaled,
  ScaledLe-floor_div, LeScaled-floor_div, min-Le, max-Le,
}
use fpvd.Prelude.Dict.{Dict, get?, put}
use fpvd.Wfb.StatsHub.Merge.{
  AntWindow, joined, weighted, merge_with, merge_ants, merge_all, averaged, cons_both, average_all,
  stats_agg,
}

-- A window with packets whose averages lie between the extremes.
abbrev pub WithinExtremes : AntWindow → Type 0
WithinExtremes v =
    (0 < v.pkt_s)
    × Le v.rssi_min v.rssi_avg
    × Le v.rssi_avg v.rssi_max
    × Le v.snr_min v.snr_avg
    × Le v.snr_avg v.snr_max

-- The same of a running sum, whose averages are totals.
abbrev TotalWithin : AntWindow → Type 0
TotalWithin v =
    (0 < v.pkt_s)
    × ScaledLe v.rssi_min v.pkt_s v.rssi_avg
    × LeScaled v.rssi_avg v.rssi_max v.pkt_s
    × ScaledLe v.snr_min v.pkt_s v.snr_avg
    × LeScaled v.snr_avg v.snr_max v.pkt_s

weighted-TotalWithin : (v : AntWindow) → WithinExtremes v → TotalWithin (weighted v)
weighted-TotalWithin v h = (
  h.0,
  mul-ScaledLe v.rssi_min v.rssi_avg v.pkt_s h.1,
  mul-LeScaled v.rssi_max v.rssi_avg v.pkt_s h.2,
  mul-ScaledLe v.snr_min v.snr_avg v.pkt_s h.3,
  mul-LeScaled v.snr_max v.snr_avg v.pkt_s h.4,
)

joined-TotalWithin :
    (v tmp : AntWindow) → WithinExtremes v → TotalWithin tmp → TotalWithin (joined v tmp)
joined-TotalWithin v tmp h k =
    let w = weighted-TotalWithin v h in
    let a = min-Le v.rssi_min tmp.rssi_min in
    let b = max-Le v.rssi_max tmp.rssi_max in
    let c = min-Le v.snr_min tmp.snr_min in
    let d = max-Le v.snr_max tmp.snr_max in
    (
      omega (arith, h.0),
      add-ScaledLe v.rssi_min tmp.rssi_min _ _ _ v.pkt_s tmp.pkt_s a.0 a.1 w.1 k.1,
      add-LeScaled v.rssi_max tmp.rssi_max _ _ _ v.pkt_s tmp.pkt_s b.0 b.1 w.2 k.2,
      add-ScaledLe v.snr_min tmp.snr_min _ _ _ v.pkt_s tmp.pkt_s c.0 c.1 w.3 k.3,
      add-LeScaled v.snr_max tmp.snr_max _ _ _ v.pkt_s tmp.pkt_s d.0 d.1 w.4 k.4,
    )

abbrev AllTotals : Dict AntWindow → Type 0
AllTotals agg = All (λ e. TotalWithin e.1) agg

abbrev MayTotal : Option AntWindow → Type 0
MayTotal none = Unit
MayTotal (some v) = TotalWithin v

get?-MayTotal : (k : ℕ) (agg : Dict AntWindow) → AllTotals agg → MayTotal (get? k agg)
unfolding get?
get?-MayTotal k [] a = tt
get?-MayTotal k ((j, v) ∷ agg) a =
    if_ind MayTotal (j == k) _ _ (λ _. a.0) (λ _. get?-MayTotal k agg a.1)

put-AllTotals :
    (k : ℕ) (v : AntWindow) (agg : Dict AntWindow)
    → TotalWithin v
    → AllTotals agg
    → AllTotals (put k v agg)
unfolding put
put-AllTotals k v [] h a = (h, tt)
put-AllTotals k v ((j, w) ∷ agg) h a =
    if_ind AllTotals (j == k) _ _ (λ _. (h, a.1)) (λ _. (a.0, put-AllTotals k v agg h a.1))

merge_with-TotalWithin :
    (o : Option AntWindow) (v : AntWindow)
    → MayTotal o
    → WithinExtremes v
    → TotalWithin (merge_with o v)
merge_with-TotalWithin none v m h = weighted-TotalWithin v h
merge_with-TotalWithin (some tmp) v m h = joined-TotalWithin v tmp h m

abbrev pub AllWithin : Dict AntWindow → Type 0
AllWithin ants = All (λ e. WithinExtremes e.1) ants

merge_ants-AllTotals :
    (ants : List (ℕ × AntWindow)) (agg : Dict AntWindow)
    → AllWithin ants
    → AllTotals agg
    → AllTotals (merge_ants ants agg)
unfolding merge_ants
merge_ants-AllTotals [] agg h a = a
merge_ants-AllTotals ((k, v) ∷ ants) agg h a =
    merge_ants-AllTotals ants (put k (merge_with (get? k agg) v) agg) h.1 (
      put-AllTotals k (merge_with (get? k agg) v) agg
        (merge_with-TotalWithin (get? k agg) v (get?-MayTotal k agg a) h.0) a)

merge_all-AllTotals :
    (stats : List (String × List (ℕ × AntWindow))) (agg : Dict AntWindow)
    → All (λ e. AllWithin e.1) stats
    → AllTotals agg
    → AllTotals (merge_all stats agg)
unfolding merge_all
merge_all-AllTotals [] agg h a = a
merge_all-AllTotals ((child, ants) ∷ stats) agg h a =
    merge_all-AllTotals stats (merge_ants ants agg) h.1 (merge_ants-AllTotals ants agg h.0 a)

-- The merge returned, with windows that are within their extremes.
abbrev pub Averaged : Option (Dict AntWindow) → Type 0
Averaged none = ⊥
Averaged (some agg) = AllWithin agg

averaged-Averaged :
    (k p : ℕ) (v : AntWindow) (rest : Option (Dict AntWindow))
    → TotalWithin (record v { pkt_s = p })
    → Averaged rest
    → Averaged (cons_both k (averaged (record v { pkt_s = p })) rest)
averaged-Averaged k p v none h r = elim r [ ]
averaged-Averaged k zero v (some agg) h r = absurd (omega (arith, h.0))
averaged-Averaged k (suc n) v (some agg) h r = (
  (
    h.0,
    ScaledLe-floor_div v.rssi_min v.rssi_avg (suc n) h.0 h.1,
    LeScaled-floor_div v.rssi_max v.rssi_avg (suc n) h.0 h.2,
    ScaledLe-floor_div v.snr_min v.snr_avg (suc n) h.0 h.3,
    LeScaled-floor_div v.snr_max v.snr_avg (suc n) h.0 h.4,
  ),
  r,
)

average_all-Averaged : (agg : Dict AntWindow) → AllTotals agg → Averaged (average_all agg)
unfolding average_all
average_all-Averaged [] a = tt
average_all-Averaged ((k, v) ∷ agg) a =
    averaged-Averaged k v.pkt_s v (average_all agg) a.0 (average_all-Averaged agg a.1)

-- When every antenna of every child has packets and averages between its extremes, the merge returns,
-- and so it is with every merged antenna, RSSI and SNR alike, in spite of the floor division.
pub stats_agg-Averaged :
    (stats : List (String × List (ℕ × AntWindow)))
    → All (λ e. AllWithin e.1) stats
    → Averaged (stats_agg stats)
unfolding stats_agg
stats_agg-Averaged stats h =
    average_all-Averaged (merge_all stats []) (merge_all-AllTotals stats [] h tt)
