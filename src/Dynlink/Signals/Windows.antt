-- ===== src/Dynlink/Signals/Windows.antt =====
-- The rolling window of the tap, and the bounds of the loss rate.
use mathlib.Core.List.{append_assoc, append-nil}
use fpvd.Prelude.{
  ℕ, zero, suc, ◌+◌, ◌-◌, ◌≤◌, ◌≡◌, ◌∙◌, ap, sym, refl, List, [], ◌∷◌, ◌++◌, arith, length,
  length-append, drop, length-drop, push_bounded,
}
use fpvd.Prelude.Float.{Float}
use fpvd.Dynlink.Signals.{Signals, RxAnt, Micro}
use fpvd.Dynlink.Signals.Aggregator.{
  SignalAggregator, Slot, total, micros_per_window, slot_of, share, per_second, consume_micro,
  consume_loss, smooth_ants, recompute_micro_window, fold_ants, micro_alpha, smooth_micro,
}

-- A record of the tap: a completed micro window, or losses reported at once.
pub data Record (F : Type 0) : Type 0 where
  micro_record : Micro → F → Record F
  loss_record : (lost_count : ℕ) → F → Record F

-- The slots of the completed micro windows, in order.
abbrev pub slots : {F : Type 0} → List (Record F) → List Slot
slots [] = []
slots (micro_record m now ∷ rs) = slot_of m ∷ slots rs
slots (loss_record n now ∷ rs) = slots rs

-- The losses that were reported since the last completed micro window.
abbrev pub unsettled : {F : Type 0} → ℕ → List (Record F) → ℕ
unsettled n [] = n
unsettled n (micro_record m now ∷ rs) = unsettled 0 rs
unsettled n (loss_record k now ∷ rs) = unsettled (n + k) rs

abbrev pub last : ℕ → List Slot → List Slot
last n xs = drop (length xs - n) xs

drop-nil : (k : ℕ) → drop {A = Slot} k [] ≡ []
drop-nil zero = refl
drop-nil (suc k) = refl

drop-drop : (a b : ℕ) (xs : List Slot) → drop a (drop b xs) ≡ drop (b + a) xs
drop-drop a zero xs = ap (λ n. drop n xs) (omega arith)
drop-drop a (suc b) [] = drop-nil a ∙ sym (drop-nil (suc b + a))
drop-drop a (suc b) (x ∷ xs) =
    let e : suc (b + a) ≡ suc b + a = omega arith in drop-drop a b xs ∙ ap (λ n. drop n (x ∷ xs)) e

drop-snoc :
    (k : ℕ) (xs : List Slot) (x : Slot)
    → k ≤ length xs
    → drop k (xs ++ x ∷ []) ≡ drop k xs ++ x ∷ []
drop-snoc zero xs x h = refl
drop-snoc (suc k) [] x h = absurd (omega (arith, h))
drop-snoc (suc k) (y ∷ xs) x h = drop-snoc k xs x (omega (arith, h))

-- Appending to a bounded window keeps the last elements of everything appended.
push_bounded-last :
    (n : ℕ) (xs : List Slot) (x : Slot) → push_bounded n (last n xs) x ≡ last n (xs ++ x ∷ [])
push_bounded-last n xs x =
    let k = length xs - n in
    let ys = xs ++ x ∷ [] in
    let e : drop k xs ++ x ∷ [] ≡ drop k ys = sym (drop-snoc k xs x (omega arith)) in
    let m = length (drop k ys) - n in
    let j : k + m ≡ length ys - n = omega (arith, length-drop k ys, length-append xs (x ∷ [])) in
    ap (λ zs. drop (length zs - n) zs) e ∙ (drop-drop m k ys ∙ ap (λ i. drop i ys) j)

abbrev pub lost_in : List Slot → ℕ → ℕ
lost_in window pending = total Slot.lost window + pending

slots_cons :
    {F : Type 0} (r : Record F) (rs : List (Record F)) → slots (r ∷ []) ++ slots rs ≡ slots (r ∷ rs)
slots_cons (micro_record m now) rs = refl
slots_cons (loss_record n now) rs = refl

unsettled_cons :
    {F : Type 0} (n : ℕ) (r : Record F) (rs : List (Record F))
    → unsettled (unsettled n (r ∷ [])) rs ≡ unsettled n (r ∷ rs)
unsettled_cons n (micro_record m now) rs = refl
unsettled_cons n (loss_record k now) rs = refl

module _ {F : Type 0} ⦃fl : Float F⦄ where
  unfoldable pub feed : SignalAggregator F → Record F → SignalAggregator F
  feed g (micro_record m now) = consume_micro g m now
  feed g (loss_record n now) = consume_loss g n now

  pub feed_all : SignalAggregator F → List (Record F) → SignalAggregator F
  feed_all g [] = g
  feed_all g (r ∷ rs) = feed_all (feed g r) rs

  -- The loss rate is that of the window and the losses pending, and starvation needs a session.
  pub record IsCurrent (g : SignalAggregator F) : Type 0 where
    pub loss :
        g.signals.residual_loss_w
        ≡ share
            (lost_in g.micro g.pending_lost)
            (total Slot.out g.micro + lost_in g.micro g.pending_lost)
    pub packets : g.signals.packet_rate_w ≡ per_second (total Slot.payload g.micro)

  pub fixed-fold_ants :
      (s : Signals F) (ants : List RxAnt)
      → ((fold_ants s ants).residual_loss_w ≡ s.residual_loss_w)
        × ((fold_ants s ants).packet_rate_w ≡ s.packet_rate_w)
  unfolding fold_ants
  fixed-fold_ants s [] = (refl, refl)
  fixed-fold_ants s (a ∷ ants) = (refl, refl)

  pub fixed-smooth_ants :
      (alpha : F) (s : Signals F)
      → ((smooth_ants alpha s).residual_loss_w ≡ s.residual_loss_w)
        × ((smooth_ants alpha s).packet_rate_w ≡ s.packet_rate_w)
  fixed-smooth_ants alpha s = ground arith

  fixed-smooth_micro :
      (g : SignalAggregator F) (ants : List RxAnt)
      → ((smooth_micro g ants).signals.residual_loss_w ≡ g.signals.residual_loss_w)
        × ((smooth_micro g ants).signals.packet_rate_w ≡ g.signals.packet_rate_w)
        × ((smooth_micro g ants).micro ≡ g.micro)
        × ((smooth_micro g ants).pending_lost ≡ g.pending_lost)
  unfolding smooth_micro
  fixed-smooth_micro g ants =
      let f = fixed-fold_ants g.signals ants in
      let k = fixed-smooth_ants (micro_alpha g.ewma_alpha_rssi) (fold_ants g.signals ants) in
      (k.0 ∙ f.0, k.1 ∙ f.1, refl, refl)

  recompute-IsCurrent : (g : SignalAggregator F) → IsCurrent (recompute_micro_window g)
  unfolding recompute_micro_window
  recompute-IsCurrent g = record { loss = refl; packets = refl }

  smooth_micro-IsCurrent :
      (g : SignalAggregator F) (ants : List RxAnt) → IsCurrent g → IsCurrent (smooth_micro g ants)
  smooth_micro-IsCurrent g ants c =
      let f = fixed-smooth_micro g ants in
      record { loss = rw (f.2, f.3) (f.0 ∙ c.loss); packets = rw f.2 (f.1 ∙ c.packets) }

  pub feed-IsCurrent : (g : SignalAggregator F) (r : Record F) → IsCurrent (feed g r)
  unfolding feed consume_micro consume_loss
  feed-IsCurrent g (micro_record m now) =
      smooth_micro-IsCurrent (recompute_micro_window _) m.rx_ant_stats (recompute-IsCurrent _)
  feed-IsCurrent g (loss_record n now) = recompute-IsCurrent _

  window-feed :
      (g : SignalAggregator F) (r : Record F) (xs : List Slot)
      → g.micro ≡ last micros_per_window xs
      → ((feed g r).micro ≡ last micros_per_window (xs ++ slots (r ∷ [])))
        × ((feed g r).pending_lost ≡ unsettled g.pending_lost (r ∷ []))
  unfolding feed consume_micro consume_loss recompute_micro_window smooth_micro
  window-feed g (micro_record m now) xs e = (
    ap (λ w. push_bounded micros_per_window w (slot_of m)) e
        ∙ push_bounded-last micros_per_window xs (slot_of m),
    refl,
  )
  window-feed g (loss_record n now) xs e =
      (e ∙ ap (last micros_per_window) (sym (append-nil xs)), refl)

  -- What the rolling window holds after some records.
  pub record Rolled (g h : SignalAggregator F) (xs : List Slot) (rs : List (Record F))
      : Type 0 where
    pub window : h.micro ≡ last micros_per_window (xs ++ slots rs)
    pub pending : h.pending_lost ≡ unsettled g.pending_lost rs

  roll :
      (g : SignalAggregator F) (xs : List Slot) (rs : List (Record F))
      → g.micro ≡ last micros_per_window xs
      → Rolled g (feed_all g rs) xs rs
  unfolding feed_all
  roll g xs [] e = record {
    window = e ∙ ap (last micros_per_window) (sym (append-nil xs));
    pending = refl;
  }
  roll g xs (r ∷ rs) e =
      let w = window-feed g r xs e in
      let k = roll (feed g r) (xs ++ slots (r ∷ [])) rs w.0 in
      record {
        window =
            k.window
            ∙ ap (last micros_per_window)
                (append_assoc xs (slots (r ∷ [])) (slots rs) ∙ ap (λ l. xs ++ l) (slots_cons r rs));
        pending = k.pending ∙ (ap (λ n. unsettled n rs) w.1 ∙ unsettled_cons g.pending_lost r rs);
      }

  feed_all-snoc :
      (g : SignalAggregator F) (rs : List (Record F)) (r : Record F)
      → feed_all g (rs ++ r ∷ []) ≡ feed (feed_all g rs) r
  unfolding feed_all
  feed_all-snoc g [] r = refl
  feed_all-snoc g (x ∷ rs) r = feed_all-snoc (feed g x) rs r

  -- A window without slots, as after `reset_micro_window`, that is fed records, the last one `r`: the
  -- rolling window holds the last ten completed micro windows, the pending losses are those reported
  -- since the last of them, the loss rate is that of the two together, and the packet rate is that of
  -- the window's payloads.
  pub tap_window :
      (g : SignalAggregator F) (rs : List (Record F)) (r : Record F)
      → g.micro ≡ []
      → let h = feed (feed_all g rs) r in
        let window = last micros_per_window (slots (rs ++ r ∷ [])) in
        let pending = unsettled g.pending_lost (rs ++ r ∷ []) in
        let lost = lost_in window pending in
        (h.micro ≡ window)
        × (h.pending_lost ≡ pending)
        × (h.signals.residual_loss_w ≡ share lost (total Slot.out window + lost))
        × (h.signals.packet_rate_w ≡ per_second (total Slot.payload window))
  tap_window g rs r e =
      let k = roll g [] (rs ++ r ∷ []) e in
      let same = feed_all-snoc g rs r in
      let h = feed (feed_all g rs) r in
      let c = feed-IsCurrent (feed_all g rs) r in
      let w : h.micro ≡ last micros_per_window (slots (rs ++ r ∷ [])) =
        ap (λ (x : SignalAggregator F). x.micro) (sym same) ∙ k.window in
      let n : h.pending_lost ≡ unsettled g.pending_lost (rs ++ r ∷ []) =
        ap (λ (x : SignalAggregator F). x.pending_lost) (sym same) ∙ k.pending in
      (w, n, rw (sym w, sym n) c.loss, rw (sym w) c.packets)
