-- ===== src/Dynlink/Knee/Tests.antt =====
-- The knee model's properties at concrete models, in fixed-point numbers.
use fpvd.Prelude.{◌≡◌, inl, refl, true, false, none, some, [], ◌∷◌, arith, get_or}
use fpvd.Prelude.Int.{ℤ, pos, ◌-ℤ◌}
use fpvd.Prelude.Fixed.{milli, milli-IsOrdered}
use fpvd.Dynlink.Knee.{
  KneeModel, HasRungs, LearnedPriorConfig, observe, eff_knees, rung_unviable, rung_confident,
  to_dict, load_dict,
}
use fpvd.Dynlink.Knee.Order.{
  eff_knees_monotone, rung_confident_own, rung_unviable_dead_band, own_confident,
}
use fpvd.Dynlink.Knee.Learning.{observe_local, observe_cold, load_dict-to_dict}

abbrev cfg : LearnedPriorConfig ℤ
cfg = record {
  settle_ticks = 5;
  viable_loss = pos 50;
  alpha_tighten = pos 250;
  alpha_relax = pos 50;
  min_samples = pos 8_000;
  recency_decay = pos 999;
  predictive_horizon_ticks = 3;
  predictive_slope_window_ticks = 10;
  predictive_min_drop_db = pos 1_000;
  predictive_debounce_windows = 3;
  predictive_demote_margin_db = pos 1_500;
  flush_interval_observations = 50;
}

-- Rung 2 has a high confident knee, rung 3 a lower one, rung 4 one without samples.
abbrev trained : KneeModel ℤ
trained = record {
  cfg = cfg;
  knee =
      none
      ∷ none
      ∷ some (pos 20_000)
      ∷ some (pos 18_000)
      ∷ some (pos 25_000)
      ∷ none
      ∷ none
      ∷ none
      ∷ [];
  count = pos 0 ∷ pos 0 ∷ pos 9_000 ∷ pos 8_500 ∷ pos 1_000 ∷ pos 0 ∷ pos 0 ∷ pos 0 ∷ [];
}

trained-HasRungs : HasRungs trained
trained-HasRungs = record { knee_len = refl; count_len = refl }

-- The lower knee of rung 3 is lifted to rung 2's; rung 4 has none.
eff_knees-trained :
    eff_knees ⦃fl = milli⦄ trained
    ≡ none ∷ none ∷ some (pos 20_000) ∷ some (pos 20_000) ∷ none ∷ none ∷ none ∷ none ∷ []
unfolding eff_knees milli
eff_knees-trained = refl

eff_2 : get_or (eff_knees ⦃fl = milli⦄ trained) 2 none ≡ some (pos 20_000)
eff_2 = rw eff_knees-trained refl

eff_3 : get_or (eff_knees ⦃fl = milli⦄ trained) 3 none ≡ some (pos 20_000)
eff_3 = rw eff_knees-trained refl

eff_knees_monotone_example : milli.le (pos 20_000) (pos 20_000) ≡ true
eff_knees_monotone_example =
    eff_knees_monotone ⦃fl = milli⦄ milli-IsOrdered trained 2 3 (pos 20_000) (pos 20_000)
      (ground arith) eff_2 eff_3

rung_confident_own_run :
    rung_confident ⦃fl = milli⦄ trained 4
    ≡ own_confident milli (pos 8_000) (some (pos 25_000)) (pos 1_000)
rung_confident_own_run = rung_confident_own ⦃fl = milli⦄ trained 4 trained-HasRungs (ground arith)

sub_le : (k a b : ℤ) → milli.le a b ≡ true → milli.le (milli.sub k b) (milli.sub k a) ≡ true
unfolding milli ◌-ℤ◌
sub_le k a b h = ground arith

below_3 : rung_unviable ⦃fl = milli⦄ trained 3 (pos 17_000) (pos 1_500) ≡ true
unfolding rung_unviable eff_knees milli
below_3 = refl

rung_unviable_dead_band_run : rung_unviable ⦃fl = milli⦄ trained 3 (pos 17_000) (pos 1_000) ≡ true
rung_unviable_dead_band_run =
    rung_unviable_dead_band ⦃fl = milli⦄ milli-IsOrdered sub_le trained 3 (pos 17_000) (pos 1_000)
      (pos 1_500) (unfold milli in refl) below_3

observe_local_run :
    get_or (observe ⦃fl = milli⦄ trained 2 (pos 30_000) false).knee 3 none ≡ some (pos 18_000)
observe_local_run =
    observe_local ⦃fl = milli⦄ trained 2 3 (pos 30_000) false (inl (λ e. ground (arith, e)))

observe_cold_run :
    get_or (observe ⦃fl = milli⦄ trained 5 (pos 12_000) false).knee 5 none ≡ some (pos 12_000)
observe_cold_run =
    observe_cold ⦃fl = milli⦄ trained 5 (pos 12_000) false trained-HasRungs (ground arith) refl

load_dict-to_dict_example :
    load_dict ⦃fl = milli⦄ trained (to_dict ⦃fl = milli⦄ trained)
    ≡ (record trained { knee = trained.knee; count = trained.count }, true)
load_dict-to_dict_example = load_dict-to_dict ⦃fl = milli⦄ trained trained trained-HasRungs
