-- ===== src/Probe/Rates.antt =====
-- The loss rates that the controller reads are shares.
use fpvd.Prelude.{
  ℕ, ◌+◌, ◌≡◌, refl, Bool, Option, none, some, List, [], ◌∷◌, All, arith, if_ind, or_else,
  if◌then◌else◌, leb,
}
use fpvd.Prelude.Int.{ℤ, pos, eq_ℤ, leb_ℤ, add_pos}
use fpvd.Prelude.Dict.{get_by, put_by}
use fpvd.Prelude.Float.{Float}
use fpvd.Prelude.Text.{Text}
use fpvd.Dynlink.Signals.Rates.{InUnit, HasShares}
use fpvd.Probe.{
  Record, rx_ant, pkt, Slot, McsAggregator, new_slot, slot, on_rx_ant, on_pkt, smooth, empty_window,
  packet_window, snapshot, parse_line,
}
use fpvd.Probe.Feed.{
  ProbeFeed, Rung, new, take_window, feed_record, feed_line, feed_all, is_fresh, with_rung,
  fresh_rungs, snapshot_fresh,
}

-- The counts of a packet line are no negative numbers.
abbrev pub IsCounted : Option Record → Type 0
IsCounted none = Unit
IsCounted (some (rx_ant mcs rssi snr)) = Unit
IsCounted (some (pkt decoded fec_rec lost)) =
    ((n : ℕ) × (decoded ≡ pos n)) × ((n : ℕ) × (lost ≡ pos n))

-- Floats in which a mean of two shares, the first with the weight alpha, is a share, and 1 is one.
pub record HasMeans {F : Type 0} (fl : Float F) (alpha : F) : Type 0 where
  pub one : InUnit fl (fl.of_int (pos 1))
  pub mean :
      (x y : F)
      → InUnit fl x
      → InUnit fl y
      → InUnit fl (fl.add (fl.mul alpha x) (fl.mul (fl.sub (fl.of_int (pos 1)) alpha) y))

module _ {F : Type 0} ⦃fl : Float F⦄ where
  abbrev pub IsShare : Option F → Type 0
  IsShare none = Unit
  IsShare (some per) = InUnit fl per

  abbrev pub AreShares : McsAggregator F → Type 0
  AreShares g = All (λ e. IsShare e.1.per) g.slots

  All-put_by :
      (mcs : ℤ) (s : Slot F) (m : List (ℤ × Slot F))
      → IsShare s.per
      → All (λ e. IsShare e.1.per) m
      → All (λ e. IsShare e.1.per) (put_by eq_ℤ mcs s m)
  unfolding put_by
  All-put_by mcs s [] h k = (h, tt)
  All-put_by mcs s ((j, t) ∷ m) h k =
      if_ind (All (λ e. IsShare e.1.per)) (eq_ℤ j mcs) _ _ (λ _. (h, k.1))
        (λ _. (k.0, All-put_by mcs s m h k.1))

  slot-IsShare :
      (mcs : ℤ) (m : List (ℤ × Slot F))
      → All (λ e. IsShare e.1.per) m
      → IsShare (or_else (get_by eq_ℤ mcs m) new_slot).per
  unfolding get_by
  slot-IsShare mcs [] h = tt
  slot-IsShare mcs ((j, t) ∷ m) h =
      if_ind {A = Option (Slot F)} (λ o. IsShare (or_else o new_slot).per) (eq_ℤ j mcs) (some t)
        (get_by eq_ℤ mcs m) (λ _. h.0) (λ _. slot-IsShare mcs m h.1)

  module _ (shares : HasShares fl) (alpha : F) (means : HasMeans fl alpha) where
    smooth-IsShare :
        (x : F) (per : Option F) → InUnit fl x → IsShare per → InUnit fl (smooth alpha x per)
    smooth-IsShare x none h k = h
    smooth-IsShare x (some per) h k = means.mean x per h k

    window-IsShare :
        (blackout a b : ℕ) (s : Slot F)
        → IsShare s.per
        → IsShare
            (if leb_ℤ (pos (a + b)) (pos 0)
              then empty_window blackout s
              else packet_window alpha (pos b) (pos (a + b)) s).per
    window-IsShare blackout a b s h =
        if_ind {A = Slot F} (λ t. IsShare t.per) (leb_ℤ (pos (a + b)) (pos 0))
          (empty_window blackout s) (packet_window alpha (pos b) (pos (a + b)) s)
          (λ _.
            if_ind {A = Option F} IsShare (leb blackout (s.empty + 1)) (some (fl.of_int (pos 1)))
              s.per (λ _. means.one) (λ _. h))
          (λ e.
            smooth-IsShare _ s.per (shares.quotient b (a + b) (omega arith) (ground (arith, e))) h)

    -- The aggregator's estimates are shares, and its weight is alpha.
    abbrev pub Fits : McsAggregator F → Type 0
    Fits g = (g.alpha ≡ alpha) × AreShares g

    on_pkt-Fits :
        (g : McsAggregator F) (mcs decoded lost : ℤ) (a b : ℕ)
        → decoded ≡ pos a
        → lost ≡ pos b
        → Fits g
        → Fits (on_pkt g mcs decoded lost)
    unfolding on_pkt
    on_pkt-Fits g mcs decoded lost a b d l h = (
      h.0,
      All-put_by mcs _ g.slots
          (rw (d, l, add_pos a b, h.0)
            (window-IsShare g.blackout_windows a b (slot g mcs) (slot-IsShare mcs g.slots h.1)))
          h.1,
    )

    on_rx_ant-Fits :
        (g : McsAggregator F) (mcs rssi snr : ℤ) → Fits g → Fits (on_rx_ant g mcs rssi snr)
    unfolding on_rx_ant
    on_rx_ant-Fits g mcs rssi snr h =
        (h.0, All-put_by mcs _ g.slots (slot-IsShare mcs g.slots h.1) h.1)

    take_window-Fits :
        (f : ProbeFeed F) (now : F) (decoded lost : ℤ) (mcs : Option ℤ) (a b : ℕ)
        → decoded ≡ pos a
        → lost ≡ pos b
        → Fits f.agg
        → Fits (take_window f now decoded lost mcs).agg
    take_window-Fits f now decoded lost none a b d l h = h
    take_window-Fits f now decoded lost (some mcs) a b d l h =
        on_pkt-Fits f.agg mcs decoded lost a b d l h

    feed_record-Fits :
        (f : ProbeFeed F) (now : F) (r : Option Record)
        → IsCounted r
        → Fits f.agg
        → Fits (feed_record f now r).agg
    unfolding feed_record
    feed_record-Fits f now none c h = h
    feed_record-Fits f now (some (rx_ant mcs rssi snr)) c h = on_rx_ant-Fits f.agg mcs rssi snr h
    feed_record-Fits f now (some (pkt decoded fec_rec lost)) c h =
        take_window-Fits f now decoded lost f.last_mcs c.0.0 c.1.0 c.0.1 c.1.1 h

    feed_all-Fits :
        (f : ProbeFeed F) (lines : List (F × Text))
        → All (λ l. IsCounted (parse_line l.1)) lines
        → Fits f.agg
        → Fits (feed_all f lines).agg
    unfolding feed_all
    feed_all-Fits f [] c h = h
    feed_all-Fits f ((now, line) ∷ lines) c h =
        feed_all-Fits (feed_line f now line) lines c.1
          (feed_record-Fits f now (parse_line line) c.0 h)

  with_rung-AreShares :
      (mcs : ℤ) (snr : Option ℤ) (fresh : Bool) (per : Option F) (rest : List (ℤ × Rung F))
      → IsShare per
      → All (λ e. InUnit fl e.1.per) rest
      → All (λ e. InUnit fl e.1.per) (with_rung mcs snr fresh per rest)
  with_rung-AreShares mcs snr fresh none rest h k = k
  with_rung-AreShares mcs snr fresh (some per) rest h k = (h, k)

  fresh_rungs-AreShares :
      (now : F) (updated : List (ℤ × F)) (g : McsAggregator F) (slots : List (ℤ × Slot F))
      → All (λ e. IsShare e.1.per) slots
      → All
          (λ e. InUnit fl e.1.per)
          (fresh_rungs now updated (snapshot (record g { slots = slots })))
  unfolding fresh_rungs
  fresh_rungs-AreShares now updated g [] h = tt
  fresh_rungs-AreShares now updated g ((mcs, s) ∷ slots) h =
      with_rung-AreShares mcs s.snr (is_fresh now (get_by eq_ℤ mcs updated)) s.per
        (fresh_rungs now updated (snapshot (record g { slots = slots }))) h.0
        (fresh_rungs-AreShares now updated g slots h.1)

  -- Whatever lines a new feed is given, with counts that are no negative numbers, and whenever it is
  -- read: the loss rate of every rung that it reports lies between 0 and 1. (Floats in which quotients
  -- and weighted means of shares do.)
  pub feed_all-InUnit :
      HasShares fl
      → HasMeans fl (new {F = F}).agg.alpha
      → (lines : List (F × Text)) (now : F) → All (λ l. IsCounted (parse_line l.1)) lines
      → All (λ e. InUnit fl e.1.per) (snapshot_fresh (feed_all new lines) now)
  feed_all-InUnit shares means lines now c =
      let f = feed_all new lines in
      fresh_rungs-AreShares now f.updated f.agg f.agg.slots
        (feed_all-Fits shares (new {F = F}).agg.alpha means new lines c (refl, tt)).1
