-- ===== src/Dynlink/Selector/Bounds.antt =====
-- What `select` and `external_demote` do to the rung, on every branch, and the invariant they keep.
use fpvd.Prelude.{
  ℕ, ◌+◌, ◌≡◌, ◌≤◌, ◌⊎◌, inl, inr, refl, Bool, true, false, ◌&&◌, ◌||◌, not, Option, none, some, [],
  ◌∷◌, arith, ltb, leb, ◌==◌, if◌then◌else◌, min, is_some, All, Bool-cases, Option-cases,
}
use fpvd.Prelude.Float.{Float}
use fpvd.Prelude.Dict.{Dict, get?, put, dict_laws}
use fpvd.Dynlink.Selector.{
  LeadingSelector, suppressed, snapback_from, snapback_target, external_demote,
}
use fpvd.Dynlink.Selector.Select.{
  Inputs, begin, demote_step, demote, note_clean, routes, start_trial, promote_known, confirm,
  confirm_known, clear_flaps, high_water, within,
}
use fpvd.Dynlink.Selector.Fixed.{fixed-demote_step, fixed-routes, fixed-suppressed, mcs-demote_step}

-- The rung is within the cap, and every confirmed rung has the SNR it was confirmed at.
pub record IsValid {F : Type 0} (s : LeadingSelector F) : Type 0 where
  pub in_cap : s.current_mcs ≤ s.cap_mcs
  pub has_snr : All (λ e. is_some (get? e.0 s.confirmed_snr) ≡ true) s.confirmed_until_ms

module _ {V : Type 0} (P : ℕ × V → Type 0) where
  All-put : (k : ℕ) (v : V) (m : Dict V) → P (k, v) → All P m → All P (put k v m)
  unfolding put
  All-put k v [] p h = (p, tt)
  All-put k v ((j, w) ∷ m) p h = elim (Bool-cases (j == k)) [
    | inl e ↦ rw (e, put) (p, h.1)
    | inr e ↦ rw (e, put) (h.0, All-put k v m p h.1)
  ]

module _ {F : Type 0} ⦃fl : Float F⦄ where
  -- Every entry of `confirmed_until_ms` has its SNR.
  abbrev HasSnr : Dict F → Dict F → Type 0
  HasSnr snr = All (λ e. is_some (get? e.0 snr) ≡ true)

  is_some-put :
      (k j : ℕ) (v : F) (m : Dict F)
      → is_some (get? j m) ≡ true
      → is_some (get? j (put k v m)) ≡ true
  is_some-put k j v m h = simp dict_laws (ground arith)

  HasSnr-put : (k : ℕ) (v : F) (snr d : Dict F) → HasSnr snr d → HasSnr (put k v snr) d
  HasSnr-put k v snr [] h = tt
  HasSnr-put k v snr (e ∷ d) h = (is_some-put k e.0 v snr h.0, HasSnr-put k v snr d h.1)

  HasSnr-put_both :
      (k : ℕ) (v w : F) (snr d : Dict F) → HasSnr snr d → HasSnr (put k v snr) (put k w d)
  HasSnr-put_both k v w snr d h =
      All-put (λ e. is_some (get? e.0 (put k v snr)) ≡ true) k w d (simp dict_laws (ground arith))
        (HasSnr-put k v snr d h)

  if-IsValid :
      (b : Bool) (s t : LeadingSelector F) → IsValid s → IsValid t → IsValid (if b then s else t)
  if-IsValid true s t v w = v
  if-IsValid false s t v w = w

  confirm_known-IsValid :
      (s : LeadingSelector F) (o : Option F) (ts : F) → IsValid s → IsValid (confirm_known s o ts)
  confirm_known-IsValid s none ts v = v
  confirm_known-IsValid s (some x) ts v =
      if-IsValid _ (confirm s x ts) s
        (record {
          in_cap = v.in_cap;
          has_snr = HasSnr-put_both s.current_mcs (high_water s x ts) _ _ _ v.has_snr;
        })
        v

  pub note_clean-IsValid :
      (s : LeadingSelector F) (i : Inputs F) → IsValid s → IsValid (note_clean s i)
  unfolding note_clean
  note_clean-IsValid s i v =
      let t = record s { clean_dwell = s.clean_dwell + 1 } in
      let w : IsValid t = record { in_cap = v.in_cap; has_snr = v.has_snr } in
      let c : IsValid (clear_flaps t) = record { in_cap = v.in_cap; has_snr = v.has_snr } in
      let u =
        confirm_known-IsValid _ i.snr_ewma i.ts_ms (
          if-IsValid (leb t.cfg.flap_reset_clean_dwell_ticks t.clean_dwell) (clear_flaps t) t c
            w) in
      record { in_cap = u.in_cap; has_snr = u.has_snr }

  snapback_from_total :
      (s : LeadingSelector F) (snr ts : F) (d : Dict F) (best : Option ℕ)
      → HasSnr s.confirmed_snr d
      → (o : Option ℕ) × (snapback_from s snr ts best d ≡ some o)
  unfolding snapback_from
  snapback_from_total s snr ts [] best h = (best, refl)
  snapback_from_total s snr ts ((r, until) ∷ d) best h =
      elim (Bool-cases (fl.lt until ts || ltb s.cap_mcs r)) [
        | inl e ↦ rw (e, snapback_from) (snapback_from_total s snr ts d best h.1)
        | inr e ↦ elim (Option-cases (get? r s.confirmed_snr)) [
          | inl no_snr ↦ cc (rw no_snr at h.0)
          | inr found ↦ rw (e, found.1, snapback_from) (snapback_from_total s snr ts d _ h.1)
        ]
      ]

  -- No KeyError: in a valid selector the search for a snap-back rung returns.
  pub snapback_target_total :
      (s : LeadingSelector F) (snr ts : F)
      → IsValid s
      → (o : Option ℕ) × (snapback_target s snr ts ≡ some o)
  unfolding snapback_target
  snapback_target_total s snr ts v =
      snapback_from_total s snr ts s.confirmed_until_ms none v.has_snr

  IsValid-of :
      (s t : LeadingSelector F)
      → IsValid s
      → t.confirmed_snr ≡ s.confirmed_snr
      → t.confirmed_until_ms ≡ s.confirmed_until_ms
      → t.current_mcs ≤ t.cap_mcs
      → IsValid t
  IsValid-of s t v e f h = record { in_cap = h; has_snr = rw (e, f) v.has_snr }

  pub fixed-start_trial :
      (prev : ℕ) (ts : F) (s : LeadingSelector F)
      → ((start_trial prev ts s).cap_mcs ≡ s.cap_mcs)
        × ((start_trial prev ts s).current_mcs ≡ s.current_mcs)
        × ((start_trial prev ts s).confirmed_snr ≡ s.confirmed_snr)
        × ((start_trial prev ts s).confirmed_until_ms ≡ s.confirmed_until_ms)
  unfolding start_trial
  fixed-start_trial prev ts s = ground arith

  start_trial-IsValid :
      (prev : ℕ) (ts : F) (s : LeadingSelector F) → IsValid s → IsValid (start_trial prev ts s)
  start_trial-IsValid prev ts s v =
      let f = fixed-start_trial prev ts s in
      IsValid-of s (start_trial prev ts s) v f.2 f.3 (omega (arith, v.in_cap, f))

  routes-IsValid :
      (s : LeadingSelector F) (i : Inputs F) (sb : Option ℕ) → IsValid s → IsValid (routes s i sb)
  routes-IsValid s i sb v =
      let f = fixed-routes s i sb in
      IsValid-of s (routes s i sb) v f.2 f.3 (omega (arith, v.in_cap, f))

  -- The selector after the damper has been asked, with its answer noted.
  abbrev pub asked : LeadingSelector F → Inputs F → LeadingSelector F
  asked s i =
      let (t, held) = suppressed s (s.current_mcs + 1) i.ts_ms i.probe_release in
      record t { promote_suppressed = held }

  asked-IsValid : (s : LeadingSelector F) (i : Inputs F) → IsValid s → IsValid (asked s i)
  asked-IsValid s i v =
      let f = fixed-suppressed s (s.current_mcs + 1) i.ts_ms i.probe_release in
      IsValid-of s (asked s i) v f.5 f.6 (omega (arith, v.in_cap, f))

  -- The gates that every promote route shares.
  abbrev pub gates_open : LeadingSelector F → Inputs F → Bool
  gates_open s i =
      let u = asked s i in
      not (within u i u.cfg.min_between_changes_ms) && not u.promote_suppressed && not i.probe_veto

  -- What `promote_known` returns.
  abbrev pub Outcome : LeadingSelector F → Inputs F → LeadingSelector F → Type 0
  Outcome s i t =
      ((gates_open s i ≡ true)
        × ((sb : Option ℕ) × (t
              ≡ start_trial (asked s i).current_mcs i.ts_ms (routes (asked s i) i sb))))
      ⊎ (t ≡ start_trial (asked s i).current_mcs i.ts_ms (asked s i))

  pub promote_known_total :
      (s : LeadingSelector F) (i : Inputs F) (snr : F)
      → IsValid s
      → (t : LeadingSelector F) × (promote_known s i snr ≡ some t) × IsValid t × Outcome s i t
  unfolding promote_known
  promote_known_total s i snr v =
      let u = asked s i in
      let w = asked-IsValid s i v in
      let found = snapback_target_total u snr i.ts_ms w in
      elim (Bool-cases (gates_open s i)) [
        | inl e ↦ (
          start_trial (asked s i).current_mcs i.ts_ms (routes u i found.0),
          rw (e, found.1) refl,
          start_trial-IsValid u.current_mcs i.ts_ms _ (routes-IsValid u i found.0 w),
          inl (e, (found.0, refl)),
        )
        | inr e ↦ (
          start_trial (asked s i).current_mcs i.ts_ms u,
          rw e,
          start_trial-IsValid u.current_mcs i.ts_ms u w,
          inr refl,
        )
      ]

  pub begin-IsValid : (s : LeadingSelector F) (i : Inputs F) → IsValid s → IsValid (begin s i)
  unfolding begin
  begin-IsValid s i v = record { in_cap = v.in_cap; has_snr = v.has_snr }

  pub demote-IsValid : (s : LeadingSelector F) (i : Inputs F) → IsValid s → IsValid (demote s i)
  unfolding demote
  demote-IsValid s i v =
      let f = fixed-demote_step s i in
      let w =
        IsValid-of s (demote_step s i) v f.2 f.3
          (ground (arith, mcs-demote_step s i v.in_cap, f.0, v.in_cap)) in
      record { in_cap = w.in_cap; has_snr = w.has_snr }

  -- A demote from outside keeps a valid selector valid.
  pub external_demote-IsValid :
      (s : LeadingSelector F) (tgt : ℕ) (ts : F) → IsValid s → IsValid (external_demote s tgt ts)
  unfolding external_demote
  external_demote-IsValid s tgt ts v =
      let tgt' = min tgt s.cap_mcs in
      if-IsValid (tgt' == s.current_mcs) s
        (record s {
          current_mcs = tgt';
          last_change_time_ms = ts;
          last_mcs_change_time_ms = ts;
          clean_dwell = 0;
          trial_rung = none;
        })
        v (record { in_cap = omega arith; has_snr = v.has_snr })
