-- ===== src/Dynlink/Selector/Damper.antt =====
-- The flap damper and the trials: a loss on probation charges the rung, and a charged rung is not
-- entered again before its window is over.
use fpvd.Prelude.{ℕ, ◌+◌, ◌-◌, ◌≡◌, ◌≢◌, ◌≤◌, ◌<◌, ◌∙◌, ap, refl, true, none, some, arith, ◌==◌}
use fpvd.Prelude.Float.{Float}
use fpvd.Prelude.Dict.{Dict, get?, put, get?-put}
use fpvd.Dynlink.Selector.{
  LeadingSelector, Reason, Class, on_trial, charge_flap, effective_flap_level, flap_backoff_ms,
  classify,
}
use fpvd.Dynlink.Selector.Select.{
  Inputs, begin, commit, demote, demote_step, loss_step, select, fail_sample,
}
use fpvd.Dynlink.Selector.Bounds.{IsValid}

get?-put_self : {V : Type 0} (k : ℕ) (v : V) (d : Dict V) → get? k (put k v d) ≡ some v
get?-put_self k v d = rw get?-put (let e : (k == k) ≡ true = ground arith in rw e)

module _ {F : Type 0} ⦃fl : Float F⦄ where
  -- What a loss on probation leaves behind.
  pub record Charged (s : LeadingSelector F) (i : Inputs F) (t : LeadingSelector F) : Type 0 where
    pub down : t.current_mcs ≡ s.current_mcs - 1
    pub level :
        get? s.current_mcs t.flap_level ≡ some (effective_flap_level s s.current_mcs i.ts_ms + 1)
    pub window :
        get? s.current_mcs t.suppress_until_ms
        ≡ some (
            fl.add i.ts_ms
              (flap_backoff_ms s.cfg (effective_flap_level s s.current_mcs i.ts_ms + 1)))
    pub stamp : get? s.current_mcs t.last_flap_ms ≡ some i.ts_ms
    pub trial : t.trial_rung ≡ none
    pub fail :
        t.last_fail
        ≡ fail_sample s.current_mcs
            (classify s s.current_mcs i.snr_ewma i.snr_w i.ts_ms)
            i.snr_ewma
            i.snr_w

  abbrev klass : LeadingSelector F → Inputs F → Class
  klass s i = classify s s.current_mcs i.snr_ewma i.snr_w i.ts_ms

  -- The selector at the call of `_charge_flap`.
  lowered : LeadingSelector F → Inputs F → LeadingSelector F
  lowered s i =
      record (commit (s.current_mcs - 1) (Reason.video_per_demote i.loss_rate (klass s i)) i.ts_ms
        s) { last_fail = fail_sample s.current_mcs (klass s i) i.snr_ewma i.snr_w }

  loss_step-on_trial :
      (s : LeadingSelector F) (i : Inputs F)
      → s.current_mcs ≤ s.cap_mcs
      → 0 < s.current_mcs
      → on_trial s s.current_mcs i.ts_ms ≡ true
      → loss_step s i ≡ charge_flap (lowered s i) s.current_mcs i.snr_ewma i.ts_ms
  unfolding loss_step lowered
  loss_step-on_trial s i h p trial = ground arith

  demote_step_loss :
      (s : LeadingSelector F) (i : Inputs F)
      → i.loss_demote ≡ true
      → i.can_demote ≡ true
      → demote_step s i ≡ loss_step s i
  unfolding demote_step
  demote_step_loss s i loss can = simp (loss, can)

  -- The damper's own memory; a commit does not change it.
  abbrev EffectiveOf : LeadingSelector F → LeadingSelector F → Type 0
  EffectiveOf s t =
      (t.flap_level ≡ s.flap_level) × (t.last_flap_ms ≡ s.last_flap_ms) × (t.cfg ≡ s.cfg)

  effective-eq :
      (s t : LeadingSelector F) (rung : ℕ) (ts : F)
      → EffectiveOf s t
      → effective_flap_level t rung ts ≡ effective_flap_level s rung ts
  unfolding effective_flap_level
  effective-eq s t rung ts (a, b, c) = rw (a, b, c)

  effective-lowered : (s : LeadingSelector F) (i : Inputs F) → EffectiveOf s (lowered s i)
  unfolding lowered commit
  effective-lowered s i = ground arith

  mcs-lowered :
      (s : LeadingSelector F) (i : Inputs F)
      → s.current_mcs ≤ s.cap_mcs
      → (lowered s i).current_mcs ≡ s.current_mcs - 1
  unfolding lowered commit
  mcs-lowered s i h = ground arith

  last_fail-lowered :
      (s : LeadingSelector F) (i : Inputs F)
      → (lowered s i).last_fail ≡ fail_sample s.current_mcs (klass s i) i.snr_ewma i.snr_w
  unfolding lowered
  last_fail-lowered s i = refl

  charge_flap-Charged :
      (s : LeadingSelector F) (i : Inputs F)
      → s.current_mcs ≤ s.cap_mcs
      → 0 < s.current_mcs
      → Charged s i (record (charge_flap (lowered s i) s.current_mcs i.snr_ewma i.ts_ms) {
        trial_rung = none;
        clean_dwell = 0;
      })
  unfolding charge_flap
  charge_flap-Charged s i h p =
      let k = s.current_mcs in
      let same = effective-lowered s i in
      let level = effective-eq s (lowered s i) k i.ts_ms same in
      record {
        down = mcs-lowered s i h;
        level = rw level (get?-put_self k _ _);
        window = rw (level, same.2) (get?-put_self k _ _);
        stamp = get?-put_self k _ _;
        trial = refl;
        fail = last_fail-lowered s i;
      }

  trial-demote :
      (s : LeadingSelector F) (i : Inputs F)
      → (demote_step s i).current_mcs ≢ s.current_mcs
      → demote s i ≡ record (demote_step s i) { trial_rung = none; clean_dwell = 0 }
  unfolding demote
  trial-demote s i ne = ground arith

  demote-Charged :
      (s : LeadingSelector F) (i : Inputs F)
      → s.current_mcs ≤ s.cap_mcs
      → 0 < s.current_mcs
      → i.loss_demote ≡ true
      → i.can_demote ≡ true
      → on_trial s s.current_mcs i.ts_ms ≡ true
      → Charged s i (demote s i)
  demote-Charged s i h p loss can trial =
      let e = demote_step_loss s i loss can ∙ loss_step-on_trial s i h p trial in
      let c = charge_flap-Charged s i h p in
      let lower : (demote_step s i).current_mcs ≢ s.current_mcs = λ same.
        absurd (omega (arith, ap (λ (t : LeadingSelector F). t.current_mcs) e, c.down, same)) in
      rw (trial-demote s i lower, e) c

  -- A loss demote by a valid selector of a rung above 0 that is on trial steps down, raises the
  -- rung's flap level over the decayed one, closes the rung until the back-off of that level is
  -- over, ends the trial, and reports the knee sample of the failure's class.
  pub select_charges :
      (s : LeadingSelector F) (i : Inputs F)
      → IsValid s
      → 0 < s.current_mcs
      → i.loss_demote ≡ true
      → i.can_demote ≡ true
      → on_trial s s.current_mcs i.ts_ms ≡ true
      → (t : LeadingSelector F) × (select s i ≡ some t) × Charged s i t
  unfolding select classify
  select_charges s i v p loss can trial =
      let b = begin s i in
      let c = demote-Charged b i v.in_cap p loss can trial in
      let level : effective_flap_level b b.current_mcs i.ts_ms
          ≡ effective_flap_level s s.current_mcs i.ts_ms =
        effective-eq s b s.current_mcs i.ts_ms (refl, refl, refl) in
      (
        demote b i,
        rw loss,
        record {
          down = c.down;
          level = rw (← level) c.level;
          window = rw (← level) c.window;
          stamp = c.stamp;
          trial = c.trial;
          fail = c.fail;
        },
      )
