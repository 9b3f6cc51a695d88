-- ===== src/Dynlink/Selector/Promote.antt =====
-- When `select` raises the rung, and that it does: the gates of the three promote routes.
use native.Mathlib.Decide.{ℕ_discrete}
use fpvd.Prelude.{
  ℕ, ◌+◌, ◌-◌, ◌≡◌, ◌≢◌, ◌≤◌, ◌<◌, ◌⊎◌, ◌∙◌, inl, inr, refl, Bool, true, false, Option, none, some,
  arith, ltb, ◌==◌, if◌then◌else◌, or_else, Bool-cases,
}
use fpvd.Prelude.Float.{Float}
use fpvd.Prelude.Int.{pos}
use fpvd.Prelude.Dict.{Dict, get?, get?-remove, remove}
use fpvd.Dynlink.Selector.{LeadingSelector, suppressed, raw_min_clear}
use fpvd.Dynlink.Selector.Select.{
  Inputs, begin, demote, note_clean, routes, start_trial, promote, is_emergency, select, within,
}
use fpvd.Dynlink.Selector.Bounds.{
  IsValid, note_clean-IsValid, demote-IsValid, begin-IsValid, promote_known_total, asked, Outcome,
  fixed-start_trial,
}
use fpvd.Dynlink.Selector.Fixed.{mcs-demote, fixed-suppressed, fixed-note_clean, fixed-routes}

get?-remove_next : {V : Type 0} (k : ℕ) (d : Dict V) → get? (k + 1) (remove k d) ≡ get? (k + 1) d
get?-remove_next k d = rw get?-remove (let e : (k == k + 1) ≡ false = ground arith in rw e)

module _ {F : Type 0} ⦃fl : Float F⦄ where
  -- The damper lets the rung through: its window is over, the probe is clean, or the raw SNR is clear.
  abbrev pub Released : LeadingSelector F → ℕ → F → Bool → Type 0
  Released s rung ts release =
      (fl.le (or_else (get? rung s.suppress_until_ms) (fl.of_int (pos 0))) ts ≡ true)
      ⊎ ((release ≡ true) ⊎ (raw_min_clear s rung ≡ true))

  suppressed-Released :
      (s : LeadingSelector F) (rung : ℕ) (ts : F) (release : Bool)
      → (suppressed s rung ts release).1 ≡ false
      → Released s rung ts release
  unfolding suppressed
  suppressed-Released s rung ts release h = ground arith

  -- One rung up from `s`, and what that takes.
  pub record Raised (s : LeadingSelector F) (i : Inputs F) (t : LeadingSelector F) : Type 0 where
    pub one_up : t.current_mcs ≡ s.current_mcs + 1
    pub trial : t.trial_rung ≡ some t.current_mcs
    pub until : t.trial_until_ms ≡ fl.add i.ts_ms s.cfg.trial_window_ms
    pub rate : within s i s.cfg.min_between_changes_ms ≡ false
    pub damper : Released s (s.current_mcs + 1) i.ts_ms i.probe_release
    pub probe : i.probe_veto ≡ false
    pub knee : (i.target_blocked ≡ false) ⊎ (i.target_confident ≡ false)

  start_trial_up :
      (prev : ℕ) (ts : F) (s : LeadingSelector F)
      → prev < s.current_mcs
      → ((start_trial prev ts s).trial_rung ≡ some (start_trial prev ts s).current_mcs)
        × ((start_trial prev ts s).trial_until_ms ≡ fl.add ts s.cfg.trial_window_ms)
  unfolding start_trial
  start_trial_up prev ts s h = ground arith

  routes_knee :
      (s : LeadingSelector F) (i : Inputs F) (sb : Option ℕ)
      → (routes s i sb).current_mcs ≢ s.current_mcs
      → (i.target_blocked ≡ false) ⊎ (i.target_confident ≡ false)
  unfolding routes
  routes_knee s i sb h = ground arith

  Outcome-Raised :
      (s : LeadingSelector F) (i : Inputs F) (t : LeadingSelector F)
      → s.current_mcs + 1 ≤ s.cap_mcs
      → Outcome s i t
      → (t.current_mcs ≡ s.current_mcs) ⊎ Raised s i t
  Outcome-Raised s i t h (inr e) =
      let f = fixed-start_trial (asked s i).current_mcs i.ts_ms (asked s i) in
      let g = fixed-suppressed s (s.current_mcs + 1) i.ts_ms i.probe_release in
      inl (rw e (omega (arith, f, g)))
  Outcome-Raised s i t h (inl (gates, (sb, e))) =
      let u = asked s i in
      let f = fixed-start_trial u.current_mcs i.ts_ms (routes u i sb) in
      let g = fixed-suppressed s (s.current_mcs + 1) i.ts_ms i.probe_release in
      let r = fixed-routes u i sb in
      elim (ℕ_discrete (routes u i sb).current_mcs u.current_mcs) [
        | yes same ↦ inl (rw e (omega (arith, f, g, same)))
        | no other ↦
            let up =
              start_trial_up u.current_mcs i.ts_ms (routes u i sb) (omega (arith, r, g, other)) in
            inr (record {
              one_up = rw e (omega (arith, f, g, r, other));
              trial = rw e up.0;
              until = rw e (ground (arith, up, r, g));
              rate = ground (arith, gates, g);
              damper = suppressed-Released s _ _ _ (ground (arith, gates));
              probe = ground (arith, gates);
              knee = routes_knee u i sb other;
            })
      ]

  -- Clearing the damper of the rung that is held does not touch the next rung's.
  suppress-note_clean :
      (s : LeadingSelector F) (i : Inputs F)
      → get? (s.current_mcs + 1) (note_clean s i).suppress_until_ms
        ≡ get? (s.current_mcs + 1) s.suppress_until_ms
  unfolding note_clean
  suppress-note_clean s i = ground (arith, get?-remove_next s.current_mcs s.suppress_until_ms)

  raw_min_clear-note_clean :
      (s : LeadingSelector F) (i : Inputs F)
      → raw_min_clear (note_clean s i) (s.current_mcs + 1) ≡ raw_min_clear s (s.current_mcs + 1)
  unfolding note_clean
  raw_min_clear-note_clean s i = ground (arith, get?-remove_next s.current_mcs s.snr_at_last_flap)

  Raised-note_clean :
      (s : LeadingSelector F) (i : Inputs F) (t : LeadingSelector F)
      → Raised (note_clean s i) i t
      → Raised s i t
  Raised-note_clean s i t r =
      let f = fixed-note_clean s i in
      record {
        one_up = omega (arith, r.one_up, f);
        trial = r.trial;
        until = ground (arith, r.until, f);
        rate = ground (arith, r.rate, f);
        damper =
            ground (arith, r.damper, suppress-note_clean s i, raw_min_clear-note_clean s i, f.2);
        probe = r.probe;
        knee = r.knee;
      }

  -- Unchanged or raised.
  abbrev KeptOrRaised : LeadingSelector F → Inputs F → LeadingSelector F → Type 0
  KeptOrRaised s i t = (t.current_mcs ≡ s.current_mcs) ⊎ Raised s i t

  promote_total :
      (s : LeadingSelector F) (i : Inputs F) (snr : Option F)
      → IsValid s
      → (t : LeadingSelector F) × (promote s i snr ≡ some t) × IsValid t × KeptOrRaised s i t
  unfolding promote
  promote_total s i none v = (
    record s { promote_suppressed = false },
    refl,
    record { in_cap = v.in_cap; has_snr = v.has_snr },
    inl refl,
  )
  promote_total s i (some snr) v = elim (Bool-cases (ltb s.cap_mcs (s.current_mcs + 1))) [
    | inl e ↦ (
      record s { promote_suppressed = false },
      rw e,
      record { in_cap = v.in_cap; has_snr = v.has_snr },
      inl refl,
    )
    | inr e ↦
        let p = promote_known_total s i snr v in
        (p.0, rw e p.1, p.2, Outcome-Raised s i p.0 (ground arith) p.3)
  ]

  clean-KeptOrRaised :
      (s : LeadingSelector F) (i : Inputs F) (t : LeadingSelector F)
      → KeptOrRaised (note_clean s i) i t
      → KeptOrRaised s i t
  clean-KeptOrRaised s i t (inl e) = inl (e ∙ (fixed-note_clean s i).2)
  clean-KeptOrRaised s i t (inr r) = inr (Raised-note_clean s i t r)

  -- What a call of `select` does to the rung: in an emergency one step down if demotes are allowed
  -- and nothing otherwise, and else nothing or one step up through open gates.
  abbrev pub Selected : LeadingSelector F → Inputs F → LeadingSelector F → Type 0
  Selected s i t =
      ((is_emergency s i ≡ true)
        × (t.current_mcs ≡ (if i.can_demote then s.current_mcs - 1 else s.current_mcs)))
      ⊎ ((is_emergency s i ≡ false) × KeptOrRaised (begin s i) i t)

  -- From a valid selector `select` returns: it raises no KeyError, and the new selector is valid.
  -- In an emergency the rung goes one step down if demotes are allowed and stays otherwise; else
  -- it stays, or goes one step up on trial through the rate limit, the damper, the probe and the
  -- knee gate.
  pub select_total :
      (s : LeadingSelector F) (i : Inputs F)
      → IsValid s
      → (t : LeadingSelector F) × (select s i ≡ some t) × IsValid t × Selected s i t
  unfolding select
  select_total s i v =
      let b = begin s i in
      let w = begin-IsValid s i v in
      elim (Bool-cases (is_emergency s i)) [
        | inl e ↦ (demote b i, rw e, demote-IsValid b i w, inl (e, mcs-demote b i w.in_cap))
        | inr e ↦
            let p = promote_total (note_clean b i) i i.snr_ewma (note_clean-IsValid b i w) in
            (p.0, rw e p.1, p.2, inr (e, clean-KeptOrRaised b i p.0 p.3))
      ]

  -- What `select` returns from a valid selector is valid, and moves as `Selected` says.
  pub select_step :
      (s : LeadingSelector F) (i : Inputs F) (t : LeadingSelector F)
      → IsValid s
      → select s i ≡ some t
      → IsValid t × Selected s i t
  select_step s i t v e =
      let p = select_total s i v in
      let same : p.0 ≡ t = cc (e, p.1) in (rw same at p.2, rw same at p.3)
