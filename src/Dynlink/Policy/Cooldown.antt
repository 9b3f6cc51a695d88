-- ===== src/Dynlink/Policy/Cooldown.antt =====
-- The shared demote cooldown over any interleaving of ticks and fast-path loss events.
use fpvd.Prelude.{
  ℕ, suc, ◌+◌, ◌≡◌, ◌≤◌, ◌<◌, ◌∙◌, ap, inl, inr, refl, Option, none, some, List, [], ◌∷◌, arith,
  ltb, if◌then◌else◌, Bool-cases,
}
use fpvd.Prelude.Float.{Float}
use fpvd.Dynlink.Selector.Bounds.{IsValid}
use fpvd.Dynlink.Signals.{Signals}
use fpvd.Dynlink.Policy.{Policy, tick, loss_event}
use fpvd.Dynlink.Policy.Steps.{tick_total}
use fpvd.Dynlink.Policy.LossEvents.{loss_event_total}

-- What the controller may call on the policy.
pub data Event (F : Type 0) : Type 0 where
  window : Signals F → Event F
  loss : Signals F → Event F

abbrev first : {F A : Type 0} → Option (Policy F × A) → Option (Policy F)
first none = none
first (some (p, a)) = some p

abbrev ticks : {F : Type 0} → List (Event F) → ℕ
ticks [] = 0
ticks (window s ∷ es) = suc (ticks es)
ticks (loss s ∷ es) = ticks es

module _ {F : Type 0} ⦃fl : Float F⦄ where
  unfoldable pub step : Policy F → Event F → Option (Policy F)
  step p (window s) = first (tick p s)
  step p (loss s) = first (loss_event p s)

  pub run : Policy F → List (Event F) → Option (Policy F)
  run p [] = some p
  run p (e ∷ es) = elim (step p e) [ none ↦ none | some q ↦ run q es ]

  -- One event: it returns, and leaves the count of windows right for the next one.
  pub record Stepped (p : Policy F) (e : Event F) (q : Policy F) : Type 0 where
    pub valid : IsValid q.leading
    pub cfg : q.cfg ≡ p.cfg
    pub cooled :
        q.leading.current_mcs < p.leading.current_mcs
        → p.cfg.selector.demote_cooldown_windows ≤ p.windows_since_demote + ticks (e ∷ [])
    pub windows : q.windows_since_demote ≡ (
        if ltb q.leading.current_mcs p.leading.current_mcs
        then 0
        else p.windows_since_demote + ticks (e ∷ []))

  step_total :
      (p : Policy F) (e : Event F)
      → IsValid p.leading
      → (q : Policy F) × (step p e ≡ some q) × Stepped p e q
  unfolding step
  step_total p (window s) v =
      let t = tick_total p s v in
      (
        t.0.0,
        ap first t.1,
        record { valid = t.2.valid; cfg = t.2.cfg; cooled = t.2.cooled; windows = t.2.windows },
      )
  step_total p (loss s) v =
      let t = loss_event_total p s v in
      (
        t.0.0,
        ap first t.1,
        record {
          valid = t.2.valid;
          cfg = t.2.cfg;
          cooled = λ h. omega (arith, t.2.cooled h);
          windows = ground (arith, t.2.windows);
        },
      )

  ticks_cons : (e : Event F) (es : List (Event F)) → ticks (e ∷ es) ≡ ticks (e ∷ []) + ticks es
  ticks_cons (window s) es = omega arith
  ticks_cons (loss s) es = omega arith

  step_kept :
      (p q : Policy F) (e : Event F) (n : ℕ)
      → Stepped p e q
      → p.windows_since_demote + (ticks (e ∷ []) + n) < p.cfg.selector.demote_cooldown_windows
      → (p.leading.current_mcs ≤ q.leading.current_mcs)
        × (q.windows_since_demote + n < q.cfg.selector.demote_cooldown_windows)
  step_kept p q e n t h = elim (Bool-cases (ltb q.leading.current_mcs p.leading.current_mcs)) [
    | inl low ↦ let c = t.cooled (ground (arith, low)) in absurd (omega (arith, c, h))
    | inr kept ↦
        let w : q.windows_since_demote ≡ p.windows_since_demote + ticks (e ∷ []) =
          ground (arith, t.windows, kept) in
        (ground (arith, kept), rw (t.cfg, w) (omega (arith, h)))
  ]

  run_on : List (Event F) → Option (Policy F) → Option (Policy F)
  run_on es none = none
  run_on es (some q) = run q es

  -- While fewer windows than the cooldown have passed since the last demote, no interleaving of ticks
  -- and loss events lowers the rung.
  pub cooling :
      (p : Policy F) (es : List (Event F))
      → IsValid p.leading
      → p.windows_since_demote + ticks es < p.cfg.selector.demote_cooldown_windows
      → (q : Policy F) × (run p es ≡ some q) × (p.leading.current_mcs ≤ q.leading.current_mcs)
  unfolding run run_on
  cooling p [] v h = (p, refl, omega arith)
  cooling p (e ∷ es) v h =
      let t = step_total p e v in
      let k = step_kept p t.0 e (ticks es) t.2 (omega (arith, h, ticks_cons e es)) in
      let rest = cooling t.0 es t.2.valid k.1 in
      (rest.0, ap (run_on es) t.1 ∙ rest.1, omega (arith, rest.2, k.0))

  -- From a valid policy, an event (a window or a fast-path loss) that lowers the rung starts the
  -- cooldown: after it, any interleaving of windows and loss events with fewer windows than
  -- `demote_cooldown_windows` returns and leaves the rung at least as high.
  pub demote_cools :
      (p q : Policy F) (e : Event F) (es : List (Event F))
      → IsValid p.leading
      → step p e ≡ some q
      → q.leading.current_mcs < p.leading.current_mcs
      → ticks es < p.cfg.selector.demote_cooldown_windows
      → (r : Policy F) × (run q es ≡ some r) × (q.leading.current_mcs ≤ r.leading.current_mcs)
  demote_cools p q e es v s low h =
      let t = step_total p e v in
      let same : t.0 ≡ q = cc (s, t.1) in
      let u = rw same at t.2 in
      let w : q.windows_since_demote ≡ 0 = ground (arith, u.windows, low) in
      cooling q es u.valid (rw (u.cfg, w) (omega (arith, h)))
