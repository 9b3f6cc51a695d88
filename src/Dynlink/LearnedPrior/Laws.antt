-- ===== src/Dynlink/LearnedPrior/Laws.antt =====
-- The facade: what a cold rung may do, and what reaches the disk.
use fpvd.Prelude.{
  ℕ, ◌+◌, ◌*◌, ◌≡◌, ◌<◌, refl, true, false, Option, none, some, [], ◌∷◌, arith, length,
  length-append, leb, Bool-cases, inl, inr,
}
use fpvd.Prelude.Float.{Float}
use fpvd.Dynlink.Knee
use fpvd.Dynlink.Knee.Order.{cold_rung_viable}
use fpvd.Dynlink.LearnedPrior.{
  LearnedPrior, count_observation, snr_rung_confident, snr_rung_unviable, flush, teach_failure,
}

full_interval :
    (i n s o : ℕ) → i * n + s ≡ o → s < i → leb i (s + 1) ≡ true → i * (n + 1) + 0 ≡ o + 1
full_interval i n s o h k full = ground arith

module _ {F : Type 0} ⦃fl : Float F⦄ where
  pub cold_rung_allowed :
      (p : LearnedPrior F) (rung : ℕ) (snr : Option F) (margin : F)
      → snr_rung_confident p rung ≡ false
      → snr_rung_unviable p rung snr margin ≡ false
  unfolding snr_rung_confident snr_rung_unviable
  cold_rung_allowed p rung none margin h = refl
  cold_rung_allowed p rung (some x) margin h = cold_rung_viable p.snr_model rung x margin h

  -- A prior that may be saved has been written once for each full interval of its observations, and
  -- counts those since the last write.
  pub record Counted (p : LearnedPrior F) (observed : ℕ) : Type 0 where
    pub durable : p.ephemeral ≡ false
    pub written : p.cfg.flush_interval_observations * length p.writes + p.since_flush ≡ observed
    pub partial : p.since_flush < p.cfg.flush_interval_observations

  count_observation-Counted :
      (p : LearnedPrior F) (observed : ℕ)
      → Counted p observed
      → Counted (count_observation p) (observed + 1)
  unfolding flush
  count_observation-Counted p observed c =
      elim (Bool-cases (leb p.cfg.flush_interval_observations (p.since_flush + 1))) [
        | inl full ↦
            let wrote = length-append p.writes (Knee.to_dict p.snr_model ∷ []) in
            rw (full, c.durable)
              (record {
                durable = refl;
                written = rw wrote (
                    full_interval p.cfg.flush_interval_observations (length p.writes) p.since_flush
                      observed c.written c.partial full);
                partial = ground (arith, c.partial);
              })
        | inr partial ↦ rw partial (record {
          durable = c.durable;
          written = ground (arith, c.written);
          partial = ground (arith, partial);
        })
      ]

  -- A failure that is taught is one more observation, and the interval's last one writes the file.
  pub teach_failure-Counted :
      (p : LearnedPrior F) (observed rung : ℕ) (snr : F)
      → Counted p observed
      → Counted (teach_failure p (some rung) (some snr)) (observed + 1)
  unfolding teach_failure
  teach_failure-Counted p observed rung snr c =
      count_observation-Counted (record p { snr_model = Knee.observe p.snr_model rung snr false })
        observed (record { durable = c.durable; written = c.written; partial = c.partial })
