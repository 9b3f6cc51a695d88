-- ===== src/Dynlink/LearnedPrior.antt =====
-- gs/fpvdgs/dynlink/learned_prior.py: `lsq_slope`, and `LearnedPrior`, the facade over the knee
-- model that is keyed and saved per drone adapter. The file system is a parameter where a prior is
-- loaded; what `flush` writes is appended to `writes`, whether or not the disk takes it.
pub mod Laws
use Prim.Native.String.{String}
use text.Mathlib.Text.{◌==◌ as str_eq}
use fpvd.Prelude.{
  ℕ, zero, suc, ◌+◌, ◌≡◌, Bool, true, false, ◌&&◌, not, Option, none, some, List, [], ◌∷◌, ◌++◌,
  ltb, leb, if◌then◌else◌, length,
}
use fpvd.Prelude.Int.{ℤ, pos}
use fpvd.Prelude.Float.{Float}
use fpvd.Dynlink.Knee
use fpvd.Dynlink.Knee.{LearnedPriorConfig, KneeModel, Doc}

-- UNBOUND_KEY, the key before the drone's adapter is known.
abbrev pub unbound_key : String
unbound_key = "unbound"

module _ {F : Type 0} ⦃fl : Float F⦄ where
  abbrev of_nat : ℕ → F
  of_nat n = fl.of_int (pos n)

  -- `sum(samples)` starts at the integer 0.
  sum_from : F → List F → F
  sum_from acc [] = acc
  sum_from acc (y ∷ ys) = sum_from (fl.add acc y) ys

  covariance_from : F → ℕ → F → F → List F → F
  covariance_from acc i mean_x mean_y [] = acc
  covariance_from acc i mean_x mean_y (y ∷ ys) =
      covariance_from (fl.add acc (fl.mul (fl.sub (of_nat i) mean_x) (fl.sub y mean_y))) (i + 1)
        mean_x mean_y ys

  variance_from : F → ℕ → F → List F → F
  variance_from acc i mean_x [] = acc
  variance_from acc i mean_x (_ ∷ ys) =
      variance_from (fl.add acc (fl.pow (fl.sub (of_nat i) mean_x) 2)) (i + 1) mean_x ys

  -- `num / den if den else 0.0`: a float is false when it equals zero.
  abbrev is_zero : F → Bool
  is_zero x = fl.le x (of_nat 0) && fl.le (of_nat 0) x

  unfoldable pub lsq_slope : List F → F
  unfolding sum_from covariance_from variance_from
  lsq_slope samples =
      let n = length samples in
      let mean_x = fl.div (fl.sub (of_nat n) (of_nat 1)) (fl.decimal 2 0) in
      let mean_y = fl.div (sum_from (of_nat 0) samples) (of_nat n) in
      let num = covariance_from (of_nat 0) 0 mean_x mean_y samples in
      let den = variance_from (of_nat 0) 0 mean_x samples in
      if ltb n 2 then fl.decimal 0 0 else if is_zero den then fl.decimal 0 0 else fl.div num den

pub record LearnedPrior (F : Type 0) : Type 0 where
  pub key : String
  pub cfg : LearnedPriorConfig F
  pub ephemeral : Bool
  pub snr_model : KneeModel F
  pub since_flush : ℕ
  pub writes : List (Doc F)

module _ {F : Type 0} ⦃fl : Float F⦄ where
  -- `_load`: `disk` is the `"snr"` part of the file of a key, if it can be read and has one.
  abbrev load : (String → Option (Doc F)) → LearnedPrior F → LearnedPrior F
  load disk p = if p.ephemeral then p else elim (disk p.key) [
    | none ↦ p
    | some doc ↦ record p { snr_model = (Knee.load_dict p.snr_model doc).0 }
  ]

  unfoldable pub new : (String → Option (Doc F)) → String → LearnedPriorConfig F → LearnedPrior F
  new disk key cfg = load disk (record {
    key = key;
    cfg = cfg;
    ephemeral = str_eq key unbound_key;
    snr_model = Knee.new cfg;
    since_flush = 0;
    writes = [];
  })

  unfoldable pub flush : LearnedPrior F → LearnedPrior F
  flush p =
      if p.ephemeral then p else record p { writes = p.writes ++ Knee.to_dict p.snr_model ∷ [] }

  -- The counting of observations that `ingest` and `teach_failure` share.
  abbrev pub count_observation : LearnedPrior F → LearnedPrior F
  count_observation p =
      let q = record p { since_flush = p.since_flush + 1 } in
      if leb q.cfg.flush_interval_observations q.since_flush
      then record (flush q) { since_flush = 0 }
      else q

  unfoldable pub ingest :
      LearnedPrior F
      → (snr : Option F) (operating_mcs : Option ℕ) (operating_clean settled : Bool)
      → LearnedPrior F
  unfolding flush
  ingest p (some snr) (some mcs) operating_clean settled =
      if settled
      then count_observation
          (record p { snr_model = Knee.observe p.snr_model mcs snr operating_clean })
      else p
  ingest p _ _ operating_clean settled = p

  unfoldable pub teach_failure :
      LearnedPrior F → (rung : Option ℕ) (snr : Option F) → LearnedPrior F
  unfolding flush
  teach_failure p (some rung) (some snr) =
      count_observation (record p { snr_model = Knee.observe p.snr_model rung snr false })
  teach_failure p _ _ = p

  unfoldable pub snr_rung_confident : LearnedPrior F → ℕ → Bool
  snr_rung_confident p rung = Knee.rung_confident p.snr_model rung

  unfoldable pub snr_rung_unviable : LearnedPrior F → ℕ → Option F → F → Bool
  snr_rung_unviable p target none margin = false
  snr_rung_unviable p target (some snr) margin = Knee.rung_unviable p.snr_model target snr margin

  unfoldable pub snr_predictive_rung_unviable : LearnedPrior F → Option F → F → ℕ → F → Bool
  snr_predictive_rung_unviable p none slope rung margin = false
  snr_predictive_rung_unviable p (some snr) slope rung margin =
      Knee.rung_unviable p.snr_model rung
        (fl.add snr (fl.mul slope (of_nat p.cfg.predictive_horizon_ticks))) margin
