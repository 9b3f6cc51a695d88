-- ===== src/Dynlink/Policy/LossEvents.antt =====
-- What the fast-path loss event does to the rung and to the cooldown.
use fpvd.Prelude.{
  ◌+◌, ◌-◌, ◌≡◌, ◌≤◌, ◌<◌, ap, inl, inr, refl, sym, true, ◌||◌, not, Option, none, some, arith, ltb,
  if◌then◌else◌, is_some, Bool-cases, if_ind,
}
use fpvd.Prelude.Float.{Float}
use fpvd.Dynlink.Selector.{LeadingSelector}
use fpvd.Dynlink.Selector.Bounds.{IsValid}
use fpvd.Dynlink.Selector.Promote.{select_total, Selected}
use fpvd.Dynlink.Signals.{Signals}
use fpvd.Dynlink.Policy.{Policy, Decision, loss_event, loss_inputs, cooldown_ok, after_loss, lost}

module _ {F : Type 0} ⦃fl : Float F⦄ where
  -- What a loss event does: at most one rung down, only when the cooldown is over.
  pub record Lost (p : Policy F) (q : Policy F) (d : Option (Decision F)) : Type 0 where
    pub valid : IsValid q.leading
    pub cfg : q.cfg ≡ p.cfg
    pub no_raise : q.leading.current_mcs ≤ p.leading.current_mcs
    pub down_one : p.leading.current_mcs ≤ q.leading.current_mcs + 1
    pub decides : is_some d ≡ ltb q.leading.current_mcs p.leading.current_mcs
    pub cooled :
        q.leading.current_mcs < p.leading.current_mcs
        → p.cfg.selector.demote_cooldown_windows ≤ p.windows_since_demote
    pub windows :
        q.windows_since_demote
        ≡ (if ltb q.leading.current_mcs p.leading.current_mcs then 0 else p.windows_since_demote)

  Selected-mcs :
      (s : LeadingSelector F) (p : Policy F) (i : Signals F) (t : LeadingSelector F)
      → Selected s (loss_inputs p i) t
      → t.current_mcs ≡ s.current_mcs - 1
  Selected-mcs s p i t (inl (_, e)) = e
  Selected-mcs s p i t (inr (calm, _)) = ground arith

  after_loss-Lost :
      (p : Policy F) (s : Signals F) (t : LeadingSelector F)
      → IsValid t
      → cooldown_ok p ≡ true
      → t.current_mcs ≡ p.leading.current_mcs - 1
      → Lost p (after_loss p s t).0 (after_loss p s t).1
  after_loss-Lost p s t v ok e =
      if_ind (λ (x : Policy F × Option (Decision F)). Lost p x.0 x.1)
        (ltb t.current_mcs p.leading.current_mcs) _ _
        (λ h. record {
          valid = v;
          cfg = refl;
          no_raise = ground (arith, e);
          down_one = ground (arith, e);
          decides = sym h;
          cooled = λ _. ground (arith, ok);
          windows = rw h refl;
        })
        (λ h. record {
          valid = v;
          cfg = refl;
          no_raise = ground (arith, e);
          down_one = ground (arith, e);
          decides = sym h;
          cooled = λ _. ground (arith, ok);
          windows = rw h refl;
        })

  -- From a valid policy `loss_event` returns: it raises no KeyError and keeps the selector valid, it
  -- never raises the rung and lowers it by at most one, only when the cooldown is over, and it decides
  -- exactly when it lowers; a demote restarts the window count, which is otherwise left alone.
  pub loss_event_total :
      (p : Policy F) (s : Signals F)
      → IsValid p.leading
      → (x : Policy F × Option (Decision F)) × (loss_event p s ≡ some x) × Lost p x.0 x.1
  unfolding loss_event
  loss_event_total p s v =
      elim (Bool-cases
        (fl.lt s.residual_loss_w p.cfg.selector.video_demote_per || not (cooldown_ok p))) [
          | inl e ↦ (
            (p, none),
            rw e refl,
            record {
              valid = v;
              cfg = refl;
              no_raise = omega arith;
              down_one = omega arith;
              decides = ground arith;
              cooled = λ h. omega arith;
              windows = ground arith;
            },
          )
          | inr e ↦
              let c = select_total p.leading (loss_inputs p s) v in
              (
                after_loss p s c.0,
                rw e (ap (lost p s) c.1),
                after_loss-Lost p s c.0 c.2 (ground (arith, e))
                    (Selected-mcs p.leading p s c.0 c.3),
              )
        ]
