-- ===== src/Dynlink/Policy/Steps.antt =====
-- One call of `tick` and of `loss_event`: how far the rung can move, and when it may fall or rise.
use fpvd.Prelude.{
  ◌+◌, ◌≡◌, ◌≤◌, ◌<◌, ◌⊎◌, ap, inl, inr, refl, true, ◌&&◌, some, List, ◌++◌, map, arith, ltb, ◌==◌,
  if◌then◌else◌,
}
use fpvd.Prelude.Float.{Float}
use fpvd.Dynlink.LearnedPrior
use fpvd.Dynlink.LearnedPrior.{LearnedPrior}
use fpvd.Dynlink.Selector.{LeadingSelector}
use fpvd.Dynlink.Selector.Select.{Inputs, begin}
use fpvd.Dynlink.Selector.Bounds.{IsValid}
use fpvd.Dynlink.Selector.Promote.{select_total, Selected}
use fpvd.Dynlink.Signals.{Signals}
use fpvd.Dynlink.Policy.{
  Policy, decided, Decision, PolicyReason, advance, prepare, finish, tick, cooldown_ok, ts_ms_of,
  probe_dirty, probe_at,
}
use fpvd.Dynlink.Policy.Lowered.{both-Lowered}

module _ {F : Type 0} ⦃fl : Float F⦄ where
  -- The policy and the arguments with which `tick` calls `select`.
  pub record Prepared (p : Policy F) (s : Signals F) (u : Policy F) (i : Inputs F) : Type 0 where
    pub cfg : u.cfg ≡ p.cfg
    pub windows : u.windows_since_demote ≡ p.windows_since_demote + 1
    pub prior : u.learned_prior ≡ p.learned_prior
    pub selector_cfg : u.leading.cfg ≡ p.leading.cfg
    pub valid : IsValid u.leading
    pub moved :
        (u.leading ≡ p.leading)
        ⊎ ((cooldown_ok u ≡ true)
            × (u.leading.current_mcs + 1 ≡ p.leading.current_mcs)
            × (u.leading.last_change_time_ms ≡ ts_ms_of s))
    pub can : i.can_demote ≡ (cooldown_ok u && u.leading.current_mcs == p.leading.current_mcs)
    pub stamp : i.ts_ms ≡ ts_ms_of s
    pub blocked :
        i.target_blocked
        ≡ LearnedPrior.snr_rung_unviable u.learned_prior
            (u.leading.current_mcs + 1)
            s.snr
            (fl.neg u.cfg.selector.snr_promote_margin_db)
    pub confident :
        i.target_confident
        ≡ LearnedPrior.snr_rung_confident u.learned_prior (u.leading.current_mcs + 1)
    pub veto : i.probe_veto ≡ probe_dirty (probe_at s (u.leading.current_mcs + 1))

  pub prepare-Prepared :
      (p : Policy F) (s : Signals F)
      → IsValid p.leading
      → Prepared p s (prepare p s).0 (prepare p s).1
  unfolding prepare
  prepare-Prepared p s v =
      let l = both-Lowered (advance p s) s.snr s.snr (ts_ms_of s) in
      record {
        cfg = l.cfg;
        windows = l.windows;
        prior = l.prior;
        selector_cfg = l.selector_cfg;
        valid = l.valid v;
        moved = elim (l.moved v) [
          | inl same ↦ inl same
          | inr (ok, down, stamp) ↦ inr (ground (arith, ok, l.cfg, l.windows), down, stamp)
        ];
        can = refl;
        stamp = refl;
        blocked = refl;
        confident = refl;
        veto = refl;
      }

  -- How far a tick moves the rung, and that it falls only when the cooldown is over.
  abbrev Moves : Policy F → Policy F → LeadingSelector F → Type 0
  Moves p u t =
      (p.leading.current_mcs ≤ t.current_mcs + 1)
      × (t.current_mcs ≤ p.leading.current_mcs + 1)
      × (t.current_mcs < p.leading.current_mcs → cooldown_ok u ≡ true)

  Prepared-Moves :
      (p : Policy F) (s : Signals F) (u : Policy F) (i : Inputs F) (t : LeadingSelector F)
      → Prepared p s u i
      → Selected u.leading i t
      → Moves p u t
  unfolding begin
  Prepared-Moves p s u i t r (inl (_, e)) = elim r.moved [
    | inl same ↦
        let e' = ap (λ (x : LeadingSelector F). x.current_mcs) same in ground (arith, e, r.can, e')
    | inr (ok, down, _) ↦ ground (arith, e, r.can, ok, down)
  ]
  Prepared-Moves p s u i t r (inr (_, inl e)) = elim r.moved [
    | inl same ↦
        let e' = ap (λ (x : LeadingSelector F). x.current_mcs) same in ground (arith, e, e')
    | inr (ok, down, _) ↦ ground (arith, e, ok, down)
  ]
  Prepared-Moves p s u i t r (inr (_, inr up)) = elim r.moved [
    | inl same ↦
        let e' = ap (λ (x : LeadingSelector F). x.current_mcs) same in ground (arith, up.one_up, e')
    | inr (ok, down, _) ↦ ground (arith, up.one_up, ok, down)
  ]

  -- What a tick does with the policy `p`.
  pub record Ticked (p : Policy F) (s : Signals F) (q : Policy F) (d : Decision F) : Type 0 where
    pub valid : IsValid q.leading
    pub cfg : q.cfg ≡ p.cfg
    pub shown : d.mcs ≡ q.leading.current_mcs
    pub down_one : p.leading.current_mcs ≤ q.leading.current_mcs + 1
    pub up_one : q.leading.current_mcs ≤ p.leading.current_mcs + 1
    pub cooled :
        q.leading.current_mcs < p.leading.current_mcs
        → p.cfg.selector.demote_cooldown_windows ≤ p.windows_since_demote + 1
    pub windows : q.windows_since_demote ≡ (
        if ltb q.leading.current_mcs p.leading.current_mcs then 0 else p.windows_since_demote + 1)

  finish-Ticked :
      (p : Policy F) (s : Signals F) (u : Policy F) (i : Inputs F) (t : LeadingSelector F)
      (why : List (PolicyReason F))
      → Prepared p s u i
      → IsValid t
      → Moves p u t
      → Ticked p s
          (finish u s p.leading.current_mcs t)
          (record { timestamp = s.timestamp; mcs = t.current_mcs; reason = why })
  unfolding finish
  finish-Ticked p s u i t why r v (a, b, c) = record {
    valid = v;
    cfg = r.cfg;
    shown = refl;
    down_one = a;
    up_one = b;
    cooled = λ h. ground (arith, c h, r.cfg, r.windows);
    windows = rw r.windows;
  }

  -- From a valid policy `tick` returns: it raises no KeyError, keeps the selector valid, moves the rung
  -- by at most one (three demote paths share one step), lowers it only when at least
  -- `demote_cooldown_windows` windows have passed since the last demote, and counts the windows.
  pub tick_total :
      (p : Policy F) (s : Signals F)
      → IsValid p.leading
      → (x : Policy F × Decision F) × (tick p s ≡ some x) × Ticked p s x.0 x.1
  unfolding tick
  tick_total p s v =
      let u = (prepare p s).0 in
      let i = (prepare p s).1 in
      let r = prepare-Prepared p s v in
      let c = select_total u.leading i r.valid in
      (
        (
          finish u s p.leading.current_mcs c.0,
          record {
            timestamp = s.timestamp;
            mcs = c.0.current_mcs;
            reason = (prepare p s).2 ++ map PolicyReason.leading c.0.reasons;
          },
        ),
        ap (decided p s u (prepare p s).2) c.1,
        finish-Ticked p s u i c.0 _ r c.2 (Prepared-Moves p s u i c.0 r c.3),
      )
