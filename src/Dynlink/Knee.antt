-- ===== src/Dynlink/Knee.antt =====
-- gs/fpvdgs/dynlink/learned_prior.py: `KneeModel`, the SNR at which each rung was seen to fail.
-- A rung is a native number: the code's guard `rung < 0` has nothing to reject.
pub mod Order
pub mod Learning
mod Tests
use fpvd.Prelude.{
  ℕ, zero, suc, ◌≡◌, Bool, true, false, ◌&&◌, not, Option, none, some, List, [], ◌∷◌, map, ltb,
  ◌==◌, if◌then◌else◌, length, get_or, set, replicate, is_some,
}
use fpvd.Prelude.Int.{pos}
use fpvd.Prelude.Float.{Float, max_float}

-- MAX_MCS, the rung ceiling.
abbrev pub max_mcs : ℕ
max_mcs = 7

abbrev pub schema_version : ℕ
schema_version = 3

pub record LearnedPriorConfig (F : Type 0) : Type 0 where
  pub settle_ticks : ℕ
  pub viable_loss : F
  pub alpha_tighten : F
  pub alpha_relax : F
  pub min_samples : F
  pub recency_decay : F
  pub predictive_horizon_ticks : ℕ
  pub predictive_slope_window_ticks : ℕ
  pub predictive_min_drop_db : F
  pub predictive_debounce_windows : ℕ
  pub predictive_demote_margin_db : F
  pub flush_interval_observations : ℕ

pub record KneeModel (F : Type 0) : Type 0 where
  pub cfg : LearnedPriorConfig F
  pub knee : List (Option F)
  pub count : List F

-- A document as `json.load` returns it; a key that is missing or no list is `none`. The entries of the
-- lists are numbers or null: of anything else `float` raises, which is left out.
pub record Doc (F : Type 0) : Type 0 where
  pub schema : ℕ
  pub knees : Option (List (Option F))
  pub counts : Option (List F)

module _ {F : Type 0} ⦃fl : Float F⦄ where
  unfoldable pub new : LearnedPriorConfig F → KneeModel F
  new cfg = record {
    cfg = cfg;
    knee = replicate (suc max_mcs) none;
    count = replicate (suc max_mcs) (fl.of_int (pos 0));
  }

  -- The `if`/`elif` chain of `observe` on one knee.
  pub learn : LearnedPriorConfig F → Option F → F → Bool → Option F
  learn cfg none value clean = if clean then none else some value
  learn cfg (some k) value clean =
      if clean && fl.lt value k
      then some (fl.add k (fl.mul cfg.alpha_relax (fl.sub value k)))
      else if not clean && fl.lt k value
      then some (fl.add k (fl.mul cfg.alpha_tighten (fl.sub value k)))
      else some k

  abbrev decay : F → List F → List F
  decay d counts = if fl.lt d (fl.of_int (pos 1)) then map (λ c. fl.mul c d) counts else counts

  unfoldable pub observe : KneeModel F → ℕ → F → Bool → KneeModel F
  unfolding learn
  observe m rung value clean =
      let counts = decay m.cfg.recency_decay m.count in
      if ltb max_mcs rung then m else record m {
        knee = set m.knee rung (learn m.cfg (get_or m.knee rung none) value clean);
        count =
            set counts rung (fl.add (get_or counts rung (fl.of_int (pos 0))) (fl.of_int (pos 1)));
      }

  -- `run` after a confident knee `k`.
  abbrev pub grow : Option F → F → F
  grow none k = k
  grow (some r) k = max_float r k

  -- The loop of `_eff_knees` over the two lists, `run` being the largest confident knee so far.
  pub eff_from : F → Option F → List (Option F) → List F → List (Option F)
  eff_from least run (k ∷ ks) (c ∷ cs) = elim k [
    | none ↦ none ∷ eff_from least run ks cs
    | some v ↦ elim (fl.le least c) [
      | true ↦ some (grow run v) ∷ eff_from least (some (grow run v)) ks cs
      | false ↦ none ∷ eff_from least run ks cs
    ]
  ]
  eff_from least run _ _ = []

  unfoldable pub eff_knees : KneeModel F → List (Option F)
  unfolding eff_from
  eff_knees m = eff_from m.cfg.min_samples none m.knee m.count

  -- `k is not None and value < k - margin`
  abbrev pub below : Option F → F → F → Bool
  below none value margin = false
  below (some k) value margin = fl.lt value (fl.sub k margin)

  unfoldable pub rung_unviable : KneeModel F → ℕ → F → F → Bool
  rung_unviable m rung value margin =
      if ltb max_mcs rung then false else below (get_or (eff_knees m) rung none) value margin

  unfoldable pub rung_confident : KneeModel F → ℕ → Bool
  rung_confident m rung =
      if ltb max_mcs rung then false else is_some (get_or (eff_knees m) rung none)

  unfoldable pub to_dict : KneeModel F → Doc F
  to_dict m = record { schema = schema_version; knees = some m.knee; counts = some m.count }

  abbrev load_lists : KneeModel F → Option (List (Option F)) → Option (List F) → KneeModel F × Bool
  load_lists m (some knees) (some counts) =
      if length knees == suc max_mcs && length counts == suc max_mcs
      then (record m { knee = knees; count = counts }, true)
      else (m, false)
  load_lists m _ _ = (m, false)

  unfoldable pub load_dict : KneeModel F → Doc F → KneeModel F × Bool
  load_dict m doc =
      if doc.schema == schema_version then load_lists m doc.knees doc.counts else (m, false)

-- The lists have one entry for each rung.
pub record HasRungs {F : Type 0} (m : KneeModel F) : Type 0 where
  pub knee_len : length m.knee ≡ suc max_mcs
  pub count_len : length m.count ≡ suc max_mcs
