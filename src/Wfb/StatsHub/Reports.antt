-- ===== src/Wfb/StatsHub/Reports.antt =====
-- What a window's report says.
use Prim.Native.String.{String}
use mathlib.Core.List.{Mem}
use fpvd.Prelude.{
  mem_all, ℕ, ◌+◌, ◌≤◌, ◌≡◌, refl, ◌∙◌, true, false, Option, none, some, List, [], ◌∷◌, map, arith,
  ltb, min, if◌then◌else◌, if_ind, All,
}
use fpvd.Prelude.Int.{ℤ, negsuc}
use fpvd.Prelude.Dict.{Dict}
use fpvd.Prelude.Float.{Float}
use fpvd.Wfb.TxSelector.{select}
use fpvd.Wfb.StatsHub.{StatsHub, Ants, Windows, Rssi}
use fpvd.Wfb.StatsHub.Merge.{AntWindow, stats_agg}
use fpvd.Wfb.StatsHub.Averages.{AllWithin, Averaged, stats_agg-Averaged}
use fpvd.Wfb.StatsHub.Window.{
  Report, pair_lt, max_pair, card_rssi, for_selection, total, rssi_of, is_empty, chosen,
  run_selection, report, aggregate_window,
}

pair_lt_trans : (a b c : ℤ × ℤ) → pair_lt a b ≡ false → pair_lt b c ≡ false → pair_lt a c ≡ false
pair_lt_trans a b c h k = ground arith

pair_lt_asym : (a b : ℤ × ℤ) → pair_lt a b ≡ true → pair_lt b a ≡ false
pair_lt_asym a b h = ground arith

pair_lt_irrefl : (a : ℤ × ℤ) → pair_lt a a ≡ false
pair_lt_irrefl a = ground arith

-- No card is stronger.
abbrev pub IsStrongest : ℤ × ℤ → List (ℤ × ℤ) → Type 0
IsStrongest m cards = All (λ c. pair_lt m c ≡ false) cards

max_pair-IsStrongest : (m : ℤ × ℤ) (xs : List (ℤ × ℤ)) → IsStrongest (max_pair m xs) (m ∷ xs)
unfolding max_pair
max_pair-IsStrongest m [] = (pair_lt_irrefl m, tt)
max_pair-IsStrongest m (x ∷ xs) =
    if_ind (λ n. IsStrongest (max_pair n xs) (m ∷ x ∷ xs)) (pair_lt m x) x m
      (λ e.
        let r = max_pair-IsStrongest x xs in
        (pair_lt_trans (max_pair x xs) x m r.0 (pair_lt_asym m x e), (r.0, r.1)))
      (λ e.
        let r = max_pair-IsStrongest m xs in (r.0, (pair_lt_trans (max_pair m xs) m x r.0 e, r.1)))

max_pair-All :
    (P : ℤ × ℤ → Type 0) (m : ℤ × ℤ) (xs : List (ℤ × ℤ)) → P m → All P xs → P (max_pair m xs)
unfolding max_pair
max_pair-All P m [] h a = h
max_pair-All P m (x ∷ xs) h a =
    if_ind (λ n. P (max_pair n xs)) (pair_lt m x) x m (λ _. max_pair-All P x xs a.0 a.1)
      (λ _. max_pair-All P m xs h a.1)

-- The greatest of a first pair and others is one of them.
max_pair-mem : (m : ℤ × ℤ) (xs : List (ℤ × ℤ)) → Mem (max_pair m xs) (m ∷ xs)
max_pair-mem m xs = let a = mem_all (m ∷ xs) in max_pair-All (λ p. Mem p (m ∷ xs)) m xs a.0 a.1

-- The levels for some cards and a count of bad packets.
abbrev pub Tells : List (ℤ × ℤ) → ℕ → Rssi → Type 0
Tells [] bad out = (out.flags ≡ 1) × (out.mav_rssi ≡ negsuc 127) × (out.mav_noise ≡ negsuc 127)
Tells (c ∷ cards) bad out =
    (out.flags ≡ (if ltb 0 bad then 2 else 0))
    × Mem (out.mav_rssi, out.mav_noise) (c ∷ cards)
    × IsStrongest (out.mav_rssi, out.mav_noise) (c ∷ cards)

rssi_of-Tells :
    (cards : List (ℤ × ℤ)) (cur : Windows)
    → Tells cards (total (λ p. p.dec_err + p.bad) cur) (rssi_of cards cur)
unfolding rssi_of
rssi_of-Tells [] cur = (refl, refl, refl)
rssi_of-Tells (c ∷ cards) cur = (refl, max_pair-mem c cards, max_pair-IsStrongest c cards)

min_bound : (n : ℕ) → min n 65535 ≤ 65535
min_bound n = omega arith

rssi_of_bounds :
    (cards : List (ℤ × ℤ)) (cur : Windows)
    → ((rssi_of cards cur).rx_errors ≤ 65535) × ((rssi_of cards cur).rx_fec ≤ 65535)
unfolding rssi_of
rssi_of_bounds cards cur = (
  min_bound (total (λ p. p.dec_err + p.bad + p.lost) cur),
  min_bound (total (λ p. p.fec_rec) cur),
)

ants-AllWithin :
    (cur : Windows)
    → All (λ e. AllWithin e.1.0) cur
    → All (λ (e : String × Ants). AllWithin e.1) (map (λ e. (e.0, e.1.0)) cur)
ants-AllWithin [] a = tt
ants-AllWithin (w ∷ cur) a = (a.0, ants-AllWithin cur a.1)

module _ {F : Type 0} where
  -- A report for some windows, and the hub after it.
  abbrev pub Reported : Windows → Option Report × StatsHub F → Type 0
  Reported cur (none, t) = ⊥
  Reported cur (some r, t) =
      AllWithin r.agg
      × Tells (card_rssi r.agg) (total (λ p. p.dec_err + p.bad) cur) r.levels_out
      × (r.levels_out.rx_errors ≤ 65535)
      × (r.levels_out.rx_fec ≤ 65535)
      × (t.cur ≡ [])

module _ {F : Type 0} ⦃fl : Float F⦄ where
  chosen-cur : (hub : StatsHub F) (o : Option ℕ) → (chosen hub o).cur ≡ hub.cur
  chosen-cur hub none = refl
  chosen-cur hub (some w) = refl

  run_selection-cur :
      (hub : StatsHub F) (agg : Dict AntWindow) → (run_selection hub agg).1.cur ≡ hub.cur
  run_selection-cur hub agg =
      if_ind (λ (r : Option ℕ × StatsHub F). r.1.cur ≡ hub.cur) (is_empty agg) _ _ (λ _. refl)
        (λ _.
          let r = select hub.txsel (for_selection agg) in
          chosen-cur (record hub { txsel = r.1 }) r.0)

  report-Reported :
      (hub : StatsHub F) (cur : Windows) (o : Option (Dict AntWindow))
      → hub.cur ≡ []
      → Averaged o
      → Reported cur (report hub cur o)
  report-Reported hub cur none e a = elim a [ ]
  report-Reported hub cur (some agg) e a =
      let b = rssi_of_bounds (card_rssi agg) cur in
      (a, rssi_of-Tells (card_rssi agg) cur, b.0, b.1, run_selection-cur hub agg ∙ e)

  -- When every antenna has packets and averages between its extremes, the end of a window returns a
  -- report and starts the next window empty. In the report the merged averages lie between the merged
  -- extremes. With no antenna the flags say that the link is lost, with levels of -128; else they say
  -- that it is jammed exactly when a child counted a bad packet, and the levels are those of one of
  -- the cards, which no other exceeds. The counts of errors and of corrected packets fit 16 bits.
  pub aggregate_window-Reported :
      (hub : StatsHub F)
      → All (λ e. AllWithin e.1.0) hub.cur
      → Reported hub.cur (aggregate_window hub)
  unfolding aggregate_window
  aggregate_window-Reported hub a =
      let stats = map (λ e. (e.0, e.1.0)) hub.cur in
      report-Reported (record hub { cur = [] }) hub.cur (stats_agg stats) refl
        (stats_agg-Averaged stats (ants-AllWithin hub.cur a))
