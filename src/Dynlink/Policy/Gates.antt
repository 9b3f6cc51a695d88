-- ===== src/Dynlink/Policy/Gates.antt =====
-- The gates of a raise in a tick.
use fpvd.Prelude.{ℕ, ◌+◌, ◌≡◌, ◌≤◌, ◌<◌, ◌∙◌, ap, inl, inr, sym, false, some, arith}
use fpvd.Prelude.Float.{Float}
use fpvd.Dynlink.LearnedPrior
use fpvd.Dynlink.LearnedPrior.{LearnedPrior}
use fpvd.Dynlink.LearnedPrior.Laws.{cold_rung_allowed}
use fpvd.Dynlink.Selector.{LeadingSelector}
use fpvd.Dynlink.Selector.Select.{Inputs, begin}
use fpvd.Dynlink.Selector.Bounds.{IsValid}
use fpvd.Dynlink.Selector.Promote.{select_total, Selected}
use fpvd.Dynlink.Signals.{Signals}
use fpvd.Dynlink.Policy.{Policy, Decision, prepare, finish, tick, decided, probe_dirty, probe_at}
use fpvd.Dynlink.Policy.Steps.{Prepared, prepare-Prepared}

module _ {F : Type 0} ⦃fl : Float F⦄ where
  -- The gates of a raise, whatever the route that took it.
  pub record Opened (p : Policy F) (s : Signals F) (rung : ℕ) : Type 0 where
    pub viable :
        LearnedPrior.snr_rung_unviable p.learned_prior rung s.snr
          (fl.neg p.cfg.selector.snr_promote_margin_db)
        ≡ false
    pub probe : probe_dirty (probe_at s rung) ≡ false

  Prepared-le :
      (p : Policy F) (s : Signals F) (u : Policy F) (i : Inputs F)
      → Prepared p s u i
      → u.leading.current_mcs ≤ p.leading.current_mcs
  Prepared-le p s u i r = elim r.moved [
    | inl same ↦ let e = ap (λ (x : LeadingSelector F). x.current_mcs) same in omega (arith, e)
    | inr (_, down, _) ↦ omega (arith, down)
  ]

  Selected-Opened :
      (p : Policy F) (s : Signals F) (u : Policy F) (i : Inputs F) (t : LeadingSelector F)
      → Prepared p s u i
      → Selected u.leading i t
      → p.leading.current_mcs < t.current_mcs
      → Opened p s t.current_mcs
  unfolding begin
  Selected-Opened p s u i t r (inl (_, e)) up =
      absurd (let m = Prepared-le p s u i r in ground (arith, e, m, up))
  Selected-Opened p s u i t r (inr (_, inl e)) up =
      absurd (let m = Prepared-le p s u i r in omega (arith, e, m, up))
  Selected-Opened p s u i t r (inr (_, inr raised)) up = rw raised.one_up (record {
    viable =
        rw (sym r.prior, sym r.cfg)
          (elim raised.knee [
            | inl k ↦ sym r.blocked ∙ k
            | inr k ↦
                cold_rung_allowed u.learned_prior (u.leading.current_mcs + 1) s.snr _
                  (sym r.confident ∙ k)
          ]);
    probe = sym r.veto ∙ raised.probe;
  })

  -- From a valid policy, a tick raises the rung only onto one that the learned knee does not call
  -- unviable at the current SNR with the promote margin, and whose probe is not freshly dirty,
  -- whichever of the three routes took it.
  pub tick_raise :
      (p : Policy F) (s : Signals F) (q : Policy F) (d : Decision F)
      → IsValid p.leading
      → tick p s ≡ some (q, d)
      → p.leading.current_mcs < q.leading.current_mcs
      → Opened p s q.leading.current_mcs
  unfolding tick finish
  tick_raise p s q d v e up =
      let u = (prepare p s).0 in
      let i = (prepare p s).1 in
      let r = prepare-Prepared p s v in
      let c = select_total u.leading i r.valid in
      let e' = ap (decided p s u (prepare p s).2) c.1 in
      let same : q.leading ≡ c.0 = cc (e, e') in
      rw same (Selected-Opened p s u i c.0 r c.3 (rw same at up))
