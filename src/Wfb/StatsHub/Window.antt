-- ===== src/Wfb/StatsHub/Window.antt =====
-- `StatsHub.aggregate_window`: the merge of the windows since the last call, the antenna selection and
-- the five numbers for the Mavlink radio status.
use fpvd.Prelude.{
  ℕ, ◌+◌, Bool, true, false, ◌&&◌, ◌||◌, Option, none, some, List, [], ◌∷◌, map, ltb, min,
  if◌then◌else◌,
}
use fpvd.Prelude.Int.{ℤ, negsuc, ◌-ℤ◌, ltb_ℤ, leb_ℤ}
use fpvd.Prelude.Dict.{Dict}
use fpvd.Prelude.Float.{Float}
use fpvd.Wfb.TxSelector.{AntStats, select}
use fpvd.Wfb.StatsHub.{StatsHub, Packets, Windows, Rssi, ant_sel, rssi, called}
use fpvd.Wfb.StatsHub.Merge.{AntWindow, stats_agg}

-- The numbers of a window: the antennas as the selection takes them, and the pairs of RSSI and noise.
abbrev pub for_selection : Dict AntWindow → Dict AntStats
for_selection agg = map (λ e. (e.0, record { pkt_s = e.1.pkt_s; rssi_avg = e.1.rssi_avg })) agg

abbrev pub card_rssi : Dict AntWindow → List (ℤ × ℤ)
card_rssi agg = map (λ e. (e.1.rssi_avg, e.1.rssi_avg -ℤ e.1.snr_avg)) agg

abbrev pub pair_lt : ℤ × ℤ → ℤ × ℤ → Bool
pair_lt (a, v) (b, w) = ltb_ℤ a b || leb_ℤ a b && leb_ℤ b a && ltb_ℤ v w

-- `max` of the pairs from a first one on.
unfoldable pub max_pair : ℤ × ℤ → List (ℤ × ℤ) → ℤ × ℤ
max_pair m [] = m
max_pair m (x ∷ xs) = max_pair (if pair_lt m x then x else m) xs

unfoldable pub total : (Packets → ℕ) → Windows → ℕ
total f [] = 0
total f ((child, w) ∷ cur) = f w.1 + total f cur

-- Without an antenna the link is lost; with one, bad packets mean that it is jammed.
abbrev pub levels : List (ℤ × ℤ) → ℕ → ℤ × ℤ × ℕ
levels [] bad = (negsuc 127, negsuc 127, 1)
levels (x ∷ cards) bad = let m = max_pair x cards in (m.0, m.1, if ltb 0 bad then 2 else 0)

unfoldable pub rssi_of : List (ℤ × ℤ) → Windows → Rssi
rssi_of cards cur =
    let l = levels cards (total (λ p. p.dec_err + p.bad) cur) in
    record {
      mav_rssi = l.0;
      mav_noise = l.1;
      rx_errors = min (total (λ p. p.dec_err + p.bad + p.lost) cur) 65535;
      rx_fec = min (total (λ p. p.fec_rec) cur) 65535;
      flags = l.2;
    }

abbrev pub is_empty : {A : Type 0} → List A → Bool
is_empty [] = true
is_empty (x ∷ xs) = false

-- What `aggregate_window` returns.
pub record Report : Type 0 where
  pub agg : Dict AntWindow
  pub levels_out : Rssi
  pub tx_sel : Option ℕ

module _ {F : Type 0} ⦃fl : Float F⦄ where
  abbrev pub chosen : StatsHub F → Option ℕ → StatsHub F
  chosen hub none = hub
  chosen hub (some w) = called hub (map (λ cb. ant_sel cb (some w)) hub.ant_sel_cbs)

  -- The selection runs on a window that has an antenna.
  abbrev pub run_selection : StatsHub F → Dict AntWindow → Option ℕ × StatsHub F
  run_selection hub agg =
      if is_empty agg
      then (none, hub)
      else let r = select hub.txsel (for_selection agg) in
        (r.0, chosen (record hub { txsel = r.1 }) r.0)

  abbrev pub report : StatsHub F → Windows → Option (Dict AntWindow) → Option Report × StatsHub F
  report hub cur none = (none, hub)
  report hub cur (some agg) =
      let r = run_selection hub agg in
      let out = rssi_of (card_rssi agg) cur in
      (
        some (record { agg = agg; levels_out = out; tx_sel = r.0 }),
        called r.1 (map (λ cb. rssi cb out) hub.rssi_cbs),
      )

  -- `none` is an exception; the windows are taken in either case.
  unfoldable pub aggregate_window : StatsHub F → Option Report × StatsHub F
  aggregate_window hub =
      report (record hub { cur = [] }) hub.cur (stats_agg (map (λ e. (e.0, e.1.0)) hub.cur))
