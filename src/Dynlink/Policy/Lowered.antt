-- ===== src/Dynlink/Policy/Lowered.antt =====
-- The demotes before `select` in a tick: each lowers the rung by one at most, and only after the cooldown.
use fpvd.Prelude.{
  ℕ, ◌+◌, ◌-◌, ◌≡◌, ◌≢◌, ◌≤◌, ◌<◌, ◌⊎◌, ◌∙◌, ap, inl, inr, refl, true, Option, none, some, List,
  arith, if_ind,
}
use fpvd.Prelude.Float.{Float}
use fpvd.Dynlink.Selector.{LeadingSelector, external_demote}
use fpvd.Dynlink.Selector.Bounds.{IsValid, external_demote-IsValid}
use fpvd.Dynlink.Signals.{Signals}
use fpvd.Dynlink.Policy.{
  Policy, PolicyReason, advance, predict, proactive, cooldown_ok, step_down, predict_on,
  predict_unviable, predict_dropping, predict_due, proactive_unviable, proactive_due,
}

module _ {F : Type 0} ⦃fl : Float F⦄ where
  -- What the steps before `select` leave alone, and how they may move the rung.
  pub record Lowered (p q : Policy F) (ts_ms : F) : Type 0 where
    pub cfg : q.cfg ≡ p.cfg
    pub windows : q.windows_since_demote ≡ p.windows_since_demote
    pub prior : q.learned_prior ≡ p.learned_prior
    pub selector_cfg : q.leading.cfg ≡ p.leading.cfg
    pub valid : IsValid p.leading → IsValid q.leading
    pub moved :
        IsValid p.leading
        → (q.leading ≡ p.leading)
          ⊎ ((cooldown_ok p ≡ true)
              × (q.leading.current_mcs + 1 ≡ p.leading.current_mcs)
              × (q.leading.last_change_time_ms ≡ ts_ms))

  external_demote_moves :
      (s : LeadingSelector F) (ts : F)
      → s.current_mcs ≤ s.cap_mcs
      → 0 < s.current_mcs
      → ((external_demote s (s.current_mcs - 1) ts).current_mcs + 1 ≡ s.current_mcs)
        × ((external_demote s (s.current_mcs - 1) ts).last_change_time_ms ≡ ts)
  unfolding external_demote
  external_demote_moves s ts h p = ground arith

  cfg-external_demote :
      (s : LeadingSelector F) (tgt : ℕ) (ts : F) → (external_demote s tgt ts).cfg ≡ s.cfg
  unfolding external_demote
  cfg-external_demote s tgt ts = ground arith

  kept-Lowered :
      (p q : Policy F) (ts : F)
      → q.cfg ≡ p.cfg
      → q.windows_since_demote ≡ p.windows_since_demote
      → q.learned_prior ≡ p.learned_prior
      → q.leading ≡ p.leading
      → Lowered p q ts
  kept-Lowered p q ts a b c d = record {
    cfg = a;
    windows = b;
    prior = c;
    selector_cfg = ap (λ (s : LeadingSelector F). s.cfg) d;
    valid = λ v. rw d v;
    moved = λ v. inl d;
  }

  step_down-Lowered :
      (p q : Policy F) (ts : F)
      → q.cfg ≡ p.cfg
      → q.windows_since_demote ≡ p.windows_since_demote
      → q.learned_prior ≡ p.learned_prior
      → q.leading ≡ external_demote p.leading (p.leading.current_mcs - 1) ts
      → cooldown_ok p ≡ true
      → 0 < p.leading.current_mcs
      → Lowered p q ts
  step_down-Lowered p q ts a b c d ok pos = record {
    cfg = a;
    windows = b;
    prior = c;
    selector_cfg = rw d (cfg-external_demote p.leading _ ts);
    valid = λ v. rw d (external_demote-IsValid p.leading _ ts v);
    moved = λ v.
        let m = external_demote_moves p.leading ts v.in_cap pos in inr (ok, rw d m.0, rw d m.1);
  }

  abbrev StepLowered : Policy F → F → Policy F × List (PolicyReason F) → Type 0
  StepLowered p ts x = Lowered p x.0 ts

  predict_on-Lowered :
      (p : Policy F) (snr slope ts : F) → Lowered p (predict_on p snr slope ts).0 ts
  predict_on-Lowered p snr slope ts =
      let q = record p { predict_demote_count = p.predict_demote_count + 1 } in
      if_ind (StepLowered p ts) (predict_unviable p snr slope) _ _
        (λ _.
          if_ind (StepLowered p ts) (predict_dropping p slope) _ _
            (λ _.
              if_ind (StepLowered p ts) (predict_due q) _ _
                (λ t.
                  step_down-Lowered p (step_down q ts) ts refl refl refl refl (ground (arith, t))
                    (ground (arith, t)))
                (λ _. kept-Lowered p q ts refl refl refl refl))
            (λ _. kept-Lowered p _ ts refl refl refl refl))
        (λ _. kept-Lowered p _ ts refl refl refl refl)

  predict-Lowered : (p : Policy F) (snr : Option F) (ts : F) → Lowered p (predict p snr ts).0 ts
  unfolding predict
  predict-Lowered p none ts = kept-Lowered p p ts refl refl refl refl
  predict-Lowered p (some snr) ts =
      let r = predict_on-Lowered (record p { snr_window = _ }) snr _ ts in
      record {
        cfg = r.cfg;
        windows = r.windows;
        prior = r.prior;
        selector_cfg = r.selector_cfg;
        valid = r.valid;
        moved = r.moved;
      }

  proactive-Lowered :
      (p : Policy F) (snr : Option F) (start : ℕ) (ts : F)
      → Lowered p (proactive p snr start ts).0 ts
  unfolding proactive
  proactive-Lowered p snr start ts =
      let q = record p { snr_demote_count = p.snr_demote_count + 1 } in
      if_ind (StepLowered p ts) (proactive_unviable p snr) _ _
        (λ _.
          if_ind (StepLowered p ts) (proactive_due q start) _ _
            (λ t.
              step_down-Lowered p (step_down q ts) ts refl refl refl refl (ground (arith, t))
                (ground (arith, t)))
            (λ _. kept-Lowered p q ts refl refl refl refl))
        (λ _. kept-Lowered p _ ts refl refl refl refl)

  -- The proactive demote waits when the rung has moved already.
  proactive_waits :
      (p : Policy F) (snr : Option F) (start : ℕ) (ts : F)
      → p.leading.current_mcs ≢ start
      → (proactive p snr start ts).0.leading ≡ p.leading
  unfolding proactive
  proactive_waits p snr start ts ne = ground arith

  advance-Lowered_free : (p : Policy F) (s : Signals F) → (advance p s).leading ≡ p.leading
  unfolding advance
  advance-Lowered_free p s = refl

  -- The two proactive demotes together take at most one rung.
  pub both-Lowered :
      (p : Policy F) (snr snr' : Option F) (ts : F)
      → Lowered p (proactive (predict p snr ts).0 snr' p.leading.current_mcs ts).0 ts
  both-Lowered p snr snr' ts =
      let q = (predict p snr ts).0 in
      let a = predict-Lowered p snr ts in
      let r = (proactive q snr' p.leading.current_mcs ts).0 in
      let b = proactive-Lowered q snr' p.leading.current_mcs ts in
      record {
        cfg = b.cfg ∙ a.cfg;
        windows = b.windows ∙ a.windows;
        prior = b.prior ∙ a.prior;
        selector_cfg = b.selector_cfg ∙ a.selector_cfg;
        valid = λ v. b.valid (a.valid v);
        moved = λ v. elim (a.moved v) [
          | inl same ↦ elim (b.moved (a.valid v)) [
            | inl same' ↦ inl (same' ∙ same)
            | inr (ok, down, stamp) ↦ inr (
              ground (arith, ok, a.cfg, a.windows),
              down ∙ ap (λ (t : LeadingSelector F). t.current_mcs) same,
              stamp,
            )
          ]
          | inr (ok, down, stamp) ↦
              let still : r.leading ≡ q.leading =
                proactive_waits q snr' p.leading.current_mcs ts
                  (λ e. absurd (omega (arith, down, e))) in
              inr (
                ok,
                ap (λ (t : LeadingSelector F). t.current_mcs + 1) still ∙ down,
                ap (λ (t : LeadingSelector F). t.last_change_time_ms) still ∙ stamp,
              )
        ];
      }
