-- ===== src/Dynlink/Selector/Fixed.antt =====
-- What the stages of `select` do to the rung, and what they leave alone.
use fpvd.Prelude.{ℕ, ◌+◌, ◌-◌, ◌≡◌, ◌≤◌, ◌⊎◌, Bool, Option, arith, if◌then◌else◌, min}
use fpvd.Prelude.Float.{Float}
use fpvd.Dynlink.Selector.{LeadingSelector, Reason, charge_flap, suppressed}
use fpvd.Dynlink.Selector.Select.{
  Inputs, commit, loss_step, demote_step, demote, note_clean, routes,
}

module _ {F : Type 0} ⦃fl : Float F⦄ where
  pub cap-commit :
      (n : ℕ) (why : Reason F) (ts : F) (s : LeadingSelector F)
      → (commit n why ts s).cap_mcs ≡ s.cap_mcs
  unfolding commit
  cap-commit n why ts s = ground arith

  pub mcs-commit :
      (n : ℕ) (why : Reason F) (ts : F) (s : LeadingSelector F)
      → (commit n why ts s).current_mcs ≡ min n s.cap_mcs
  unfolding commit
  mcs-commit n why ts s = ground arith

  pub mcs-demote_step :
      (s : LeadingSelector F) (i : Inputs F)
      → s.current_mcs ≤ s.cap_mcs
      → (demote_step s i).current_mcs ≡ (if i.can_demote then s.current_mcs - 1 else s.current_mcs)
  unfolding demote_step loss_step charge_flap
  mcs-demote_step s i h = ground arith

  pub mcs-demote :
      (s : LeadingSelector F) (i : Inputs F)
      → s.current_mcs ≤ s.cap_mcs
      → (demote s i).current_mcs ≡ (if i.can_demote then s.current_mcs - 1 else s.current_mcs)
  unfolding demote
  mcs-demote s i h = mcs-demote_step s i h

  pub fixed-demote_step :
      (s : LeadingSelector F) (i : Inputs F)
      → ((demote_step s i).cap_mcs ≡ s.cap_mcs)
        × ((demote_step s i).cfg ≡ s.cfg)
        × ((demote_step s i).confirmed_snr ≡ s.confirmed_snr)
        × ((demote_step s i).confirmed_until_ms ≡ s.confirmed_until_ms)
  unfolding demote_step loss_step charge_flap
  fixed-demote_step s i = ground arith

  pub fixed-suppressed :
      (s : LeadingSelector F) (rung : ℕ) (ts : F) (release : Bool)
      → ((suppressed s rung ts release).0.cap_mcs ≡ s.cap_mcs)
        × ((suppressed s rung ts release).0.cfg ≡ s.cfg)
        × ((suppressed s rung ts release).0.current_mcs ≡ s.current_mcs)
        × ((suppressed s rung ts release).0.last_change_time_ms ≡ s.last_change_time_ms)
        × ((suppressed s rung ts release).0.clean_dwell ≡ s.clean_dwell)
        × ((suppressed s rung ts release).0.confirmed_snr ≡ s.confirmed_snr)
        × ((suppressed s rung ts release).0.confirmed_until_ms ≡ s.confirmed_until_ms)
  unfolding suppressed
  fixed-suppressed s rung ts release = ground arith

  pub fixed-note_clean :
      (s : LeadingSelector F) (i : Inputs F)
      → ((note_clean s i).cap_mcs ≡ s.cap_mcs)
        × ((note_clean s i).cfg ≡ s.cfg)
        × ((note_clean s i).current_mcs ≡ s.current_mcs)
        × ((note_clean s i).last_change_time_ms ≡ s.last_change_time_ms)
        × ((note_clean s i).clean_dwell ≡ s.clean_dwell + 1)
  unfolding note_clean
  fixed-note_clean s i = ground arith

  pub fixed-routes :
      (s : LeadingSelector F) (i : Inputs F) (sb : Option ℕ)
      → ((routes s i sb).cap_mcs ≡ s.cap_mcs)
        × ((routes s i sb).cfg ≡ s.cfg)
        × ((routes s i sb).confirmed_snr ≡ s.confirmed_snr)
        × ((routes s i sb).confirmed_until_ms ≡ s.confirmed_until_ms)
        × ((routes s i sb).current_mcs ≤ s.cap_mcs ⊎ (routes s i sb).current_mcs ≡ s.current_mcs)
        × (((routes s i sb).current_mcs ≡ s.current_mcs)
            ⊎ ((routes s i sb).current_mcs ≡ min (s.current_mcs + 1) s.cap_mcs))
  unfolding routes
  fixed-routes s i sb = ground arith
