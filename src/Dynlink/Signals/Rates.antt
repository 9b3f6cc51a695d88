-- ===== src/Dynlink/Signals/Rates.antt =====
-- The loss rate that the policy compares with its threshold is a share.
use fpvd.Prelude.{ℕ, ◌+◌, ◌≤◌, ◌<◌, ◌≡◌, ◌∙◌, true, arith, ltb, or_else, Bool-cases, inl, inr}
use fpvd.Prelude.Int.{pos}
use fpvd.Prelude.Float.{Float}
use fpvd.Dynlink.Signals.{RxEvent}
use fpvd.Dynlink.Signals.Aggregator.{SignalAggregator, share, consume, fold_packets}
use fpvd.Dynlink.Signals.Windows.{
  Record, feed, feed-IsCurrent, fixed-fold_ants, fixed-smooth_ants, lost_in,
}

-- At least 0 and at most 1.
abbrev pub InUnit : {F : Type 0} → Float F → F → Type 0
InUnit fl x = (fl.le (fl.of_int (pos 0)) x ≡ true) × (fl.le x (fl.of_int (pos 1)) ≡ true)

-- Floats in which 0.0 and the quotient of a number by one that is not smaller lie between 0 and 1.
pub record HasShares {F : Type 0} (fl : Float F) : Type 0 where
  pub nought : InUnit fl (fl.decimal 0 0)
  pub quotient :
      (n m : ℕ) → n ≤ m → 0 < m → InUnit fl (fl.div (fl.of_int (pos n)) (fl.of_int (pos m)))

-- A 100 ms window or a record of the tap.
pub data Input (F : Type 0) : Type 0 where
  window : RxEvent F → Input F
  tap : Record F → Input F

module _ {F : Type 0} ⦃fl : Float F⦄ where
  abbrev pub absorb : SignalAggregator F → Input F → SignalAggregator F
  absorb g (window ev) = consume g ev
  absorb g (tap r) = feed g r

  share-InUnit : HasShares fl → (n m : ℕ) → n ≤ m → InUnit fl (share n m)
  share-InUnit h n m le = elim (Bool-cases (ltb 0 m)) [
    | inl e ↦ rw e (h.quotient n m le (ground (arith, e)))
    | inr e ↦ rw e h.nought
  ]

  loss-consume :
      (g : SignalAggregator F) (ev : RxEvent F)
      → (consume g ev).signals.residual_loss_w
        ≡ share
            (or_else ev.packets_window.lost 0)
            (or_else ev.packets_window.out 0 + or_else ev.packets_window.lost 0)
  unfolding consume fold_packets
  loss-consume g ev =
      (fixed-smooth_ants g.ewma_alpha_rssi _).0 ∙ (fixed-fold_ants _ ev.rx_ant_stats).0

  -- Whatever window or tap record the aggregator absorbs, and in whatever state, the loss rate that it
  -- leaves lies between 0 and 1. (Floats in which such quotients do.)
  pub absorb-InUnit :
      HasShares fl
      → (g : SignalAggregator F) (i : Input F) → InUnit fl (absorb g i).signals.residual_loss_w
  absorb-InUnit h g (window ev) =
      rw (loss-consume g ev) (share-InUnit h (or_else ev.packets_window.lost 0) _ (omega arith))
  absorb-InUnit h g (tap r) =
      rw (feed-IsCurrent g r).loss
        (share-InUnit h (lost_in (feed g r).micro (feed g r).pending_lost) _ (omega arith))
