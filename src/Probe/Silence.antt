-- ===== src/Probe/Silence.antt =====
-- A rung is fresh by windows with packets only.
use fpvd.Prelude.{◌≡◌, refl, ◌∙◌, Bool, false, Option, none, some, List, [], ◌∷◌, All, if_ind}
use fpvd.Prelude.Int.{ℤ, eq_ℤ}
use fpvd.Prelude.Dict.{get_by}
use fpvd.Prelude.Float.{Float}
use fpvd.Prelude.Text.{Text}
use fpvd.Probe.{Record, rx_ant, pkt, Snapshot, snapshot, parse_line}
use fpvd.Probe.Feed.{
  ProbeFeed, Rung, fresh_s, has_packets, take_window, feed_record, feed_line, feed_all, is_fresh,
  with_rung, fresh_rungs, snapshot_fresh,
}

-- A line that tells of no packet.
abbrev pub IsQuiet : Option Record → Type 0
IsQuiet none = Unit
IsQuiet (some (rx_ant mcs rssi snr)) = Unit
IsQuiet (some (pkt decoded fec_rec lost)) = has_packets decoded lost ≡ false

module _ {F : Type 0} ⦃fl : Float F⦄ where
  quiet_window :
      (f : ProbeFeed F) (now : F) (decoded lost : ℤ) (mcs : Option ℤ)
      → has_packets decoded lost ≡ false
      → (take_window f now decoded lost mcs).updated ≡ f.updated
  quiet_window f now decoded lost none h = refl
  quiet_window f now decoded lost (some mcs) h = rw h refl

  quiet_record :
      (f : ProbeFeed F) (now : F) (r : Option Record)
      → IsQuiet r
      → (feed_record f now r).updated ≡ f.updated
  unfolding feed_record
  quiet_record f now none h = refl
  quiet_record f now (some (rx_ant mcs rssi snr)) h = refl
  quiet_record f now (some (pkt decoded fec_rec lost)) h =
      quiet_window f now decoded lost f.last_mcs h

  quiet_lines :
      (f : ProbeFeed F) (lines : List (F × Text))
      → All (λ l. IsQuiet (parse_line l.1)) lines
      → (feed_all f lines).updated ≡ f.updated
  unfolding feed_all
  quiet_lines f [] h = refl
  quiet_lines f ((now, line) ∷ lines) h =
      quiet_lines (feed_line f now line) lines h.1 ∙ quiet_record f now (parse_line line) h.0

  -- The last packets of a rung are too long ago.
  abbrev pub IsOld : F → List (ℤ × F) → Type 0
  IsOld now updated = All (λ e. fl.le (fl.sub now e.1) fresh_s ≡ false) updated

  old_rung :
      (now : F) (mcs : ℤ) (updated : List (ℤ × F))
      → IsOld now updated
      → is_fresh now (get_by eq_ℤ mcs updated) ≡ false
  unfolding get_by
  old_rung now mcs [] h = refl
  old_rung now mcs ((j, t) ∷ updated) h =
      if_ind {A = Option F} (λ o. is_fresh now o ≡ false) (eq_ℤ j mcs) (some t)
        (get_by eq_ℤ mcs updated) (λ _. h.0) (λ _. old_rung now mcs updated h.1)

  stale_with_rung :
      (mcs : ℤ) (snr : Option ℤ) (fresh : Bool) (per : Option F) (rest : List (ℤ × Rung F))
      → fresh ≡ false
      → All (λ e. e.1.fresh ≡ false) rest
      → All (λ e. e.1.fresh ≡ false) (with_rung mcs snr fresh per rest)
  stale_with_rung mcs snr fresh none rest h k = k
  stale_with_rung mcs snr fresh (some per) rest h k = (h, k)

  old_rungs :
      (now : F) (updated : List (ℤ × F)) (slots : List (ℤ × Snapshot F))
      → IsOld now updated
      → All (λ e. e.1.fresh ≡ false) (fresh_rungs now updated slots)
  unfolding fresh_rungs
  old_rungs now updated [] h = tt
  old_rungs now updated ((mcs, s) ∷ slots) h =
      stale_with_rung mcs s.snr (is_fresh now (get_by eq_ℤ mcs updated)) s.per
        (fresh_rungs now updated slots) (old_rung now mcs updated h) (old_rungs now updated slots h)

  -- However many lines without packets come, at a time that is more than `PROBE_FRESH_S` after the last
  -- packets of every rung no rung is fresh: a blackout decays to stale, also while it pins the loss rate.
  pub feed_all-Stale :
      (f : ProbeFeed F) (lines : List (F × Text)) (now : F)
      → All (λ l. IsQuiet (parse_line l.1)) lines
      → IsOld now f.updated
      → All (λ e. e.1.fresh ≡ false) (snapshot_fresh (feed_all f lines) now)
  feed_all-Stale f lines now h old =
      rw (quiet_lines f lines h) (old_rungs now f.updated (snapshot (feed_all f lines).agg) old)
