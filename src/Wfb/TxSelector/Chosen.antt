-- ===== src/Wfb/TxSelector/Chosen.antt =====
-- What a pass of `TxSelector.select` may do.
use mathlib.Core.List.{Mem}
use fpvd.Prelude.{
  Bool-cases, inl, inr, arith, ◌⊎◌, true, ℕ, ◌≡◌, ap, refl, sym, ◌∙◌, ==_refl, false, Option, none,
  some, List, [], if_ind,
}
use fpvd.Prelude.Int.{ℤ, ◌-ℤ◌, ltb_ℤ}
use fpvd.Prelude.Dict.{Dict}
use fpvd.Prelude.Float.{Float}
use fpvd.Wfb.TxSelector.{
  AntStats, TxSelector, Ranking, has, current_rssi, is_current, held_back, candidates, best, ranked,
  near_max, switch_to, select, group_rows, sorted_rows,
}
use fpvd.Wfb.TxSelector.Best.{
  IsBest, IsEligible, BestOf, best-BestOf, candidates-All, rank_groups-MayTransmit,
}

-- One of the cards near the maximum, which no other exceeds.
abbrev pub IsTop : Ranking → List ℕ → ℤ × ℕ → Type 0
IsTop ranking near c = Mem c (candidates near ranking) × IsBest c (candidates near ranking)

module _ {F : Type 0} ⦃fl : Float F⦄ where
  -- The current card, if any, is out of the race, or the RSSI is not short of the difference to it.
  abbrev pub Beats : TxSelector F → Ranking → List ℕ → ℤ → Option ℕ → Type 0
  Beats s ranking near rssi none = Unit
  Beats s ranking near rssi (some c) =
      (has near c ≡ false)
      ⊎ (ltb_ℤ (rssi -ℤ current_rssi (some c) ranking) s.cfg.rssi_delta_db ≡ false)

  -- The current card is in the race, and the RSSI is short of the difference to it.
  abbrev pub IsShort : TxSelector F → Ranking → List ℕ → ℤ → Option ℕ → Type 0
  IsShort s ranking near rssi none = ⊥
  IsShort s ranking near rssi (some c) =
      (has near c ≡ true)
      × (ltb_ℤ (rssi -ℤ current_rssi (some c) ranking) s.cfg.rssi_delta_db ≡ true)

  -- A switch to `w` at `rssi`; or none, as there is no card to choose from or the best is not worth it.
  abbrev pub Switched : TxSelector F → Ranking → List ℕ → ℤ → Option ℕ × TxSelector F → Type 0
  Switched s ranking near rssi (none, t) =
      (t ≡ s)
      × ((candidates near ranking ≡ [])
          ⊎ ((w : ℕ) × IsTop ranking near (rssi, w)
              × ((is_current s.current w ≡ true) ⊎ IsShort s ranking near rssi s.current)))
  Switched s ranking near rssi (some w, t) =
      (t ≡ record s { current = some w })
      × (is_current s.current w ≡ false)
      × IsEligible s.rx_only_wlan_ids near (rssi, w)
      × IsTop ranking near (rssi, w)
      × Beats s ranking near rssi s.current

  held_back-IsShort :
      (s : TxSelector F) (ranking : Ranking) (near : List ℕ) (rssi : ℤ) (o : Option ℕ)
      → held_back (record s { current = o }) ranking near rssi ≡ true
      → IsShort s ranking near rssi o
  held_back-IsShort s ranking near rssi none h = ground (arith, h)
  held_back-IsShort s ranking near rssi (some c) h = (ground (arith, h), ground (arith, h))

  held_back-Beats :
      (s : TxSelector F) (ranking : Ranking) (near : List ℕ) (rssi : ℤ) (o : Option ℕ)
      → held_back (record s { current = o }) ranking near rssi ≡ false
      → Beats s ranking near rssi o
  held_back-Beats s ranking near rssi none h = tt
  held_back-Beats s ranking near rssi (some c) h = elim (Bool-cases (has near c)) [
    | inl e ↦ inr (ground (arith, h, e))
    | inr e ↦ inl e
  ]

  switch_to-Switched :
      (s : TxSelector F) (ranking : Ranking) (near : List ℕ) (b : Option (ℤ × ℕ))
      → BestOf s.rx_only_wlan_ids near (candidates near ranking) b
      → (rssi : ℤ) × Switched s ranking near rssi (switch_to s ranking near b)
  unfolding switch_to
  switch_to-Switched s ranking near none h = (s.cfg.rssi_delta_db, (refl, inl h))
  switch_to-Switched s ranking near (some (rssi, w)) h = (
    rssi,
    if_ind (Switched s ranking near rssi) (is_current s.current w) _ _
        (λ e. (refl, inr (w, (h.1, h.2), inl e)))
        (λ e.
          if_ind (Switched s ranking near rssi) (held_back s ranking near rssi) _ _
            (λ k.
              (refl, inr (w, (h.1, h.2), inr (held_back-IsShort s ranking near rssi s.current k))))
            (λ k. (refl, e, h.0, (h.1, h.2), held_back-Beats s ranking near rssi s.current k))),
  )

  -- A pass either makes one card the current one and returns it, or leaves the selector as it is. A card
  -- that it switches to was not the current one, may transmit, and is with its RSSI one of the ranked
  -- cards whose packet count is near the maximum; no other of these compares greater by RSSI and id;
  -- when the old card is itself near the maximum, the RSSI of the new one is not short of the configured
  -- difference to it. It stays only when no card is near the maximum, or when such a greatest one is
  -- the current card or short of that difference.
  pub select-Switched :
      (s : TxSelector F) (stats_agg : Dict AntStats)
      → (rssi : ℤ) × Switched s
          (ranked s stats_agg).0
          (near_max s stats_agg)
          rssi
          (select s stats_agg)
  unfolding select ranked
  select-Switched s stats_agg =
      let rx = s.rx_only_wlan_ids in
      let ranking = (ranked s stats_agg).0 in
      let near = near_max s stats_agg in
      let may = rank_groups-MayTransmit rx (group_rows (sorted_rows stats_agg)) ([], 0) tt in
      switch_to-Switched s ranking near (best (candidates near ranking))
        (best-BestOf rx near (candidates near ranking) (candidates-All rx near ranking may))

  switch_to_again :
      (s : TxSelector F) (ranking : Ranking) (near : List ℕ) (b : Option (ℤ × ℕ))
      → let t = (switch_to s ranking near b).1 in switch_to t ranking near b ≡ (none, t)
  unfolding switch_to
  switch_to_again s ranking near none = refl
  switch_to_again s ranking near (some (rssi, w)) =
      let P = λ (r : Option ℕ × TxSelector F).
        switch_to r.1 ranking near (some (rssi, w)) ≡ (none, r.1) in
      if_ind P (is_current s.current w) _ _ (λ e. rw e refl)
        (λ e.
          if_ind P (held_back s ranking near rssi) _ _ (λ k. rw (e, k) refl)
            (λ k. rw (==_refl w) refl))

  select-fields :
      (s : TxSelector F) (stats_agg : Dict AntStats) (c : Option ℕ)
      → select (record s { current = c }) stats_agg
        ≡ switch_to
            (record s { current = c })
            (ranked s stats_agg).0
            (near_max s stats_agg)
            (best (candidates (near_max s stats_agg) (ranked s stats_agg).0))
  unfolding select near_max ranked
  select-fields s stats_agg c = refl

  switch_to-fields :
      (s : TxSelector F) (ranking : Ranking) (near : List ℕ) (b : Option (ℤ × ℕ))
      → let t = (switch_to s ranking near b).1 in t ≡ record s { current = t.current }
  unfolding switch_to
  switch_to-fields s ranking near none = refl
  switch_to-fields s ranking near (some (rssi, w)) =
      let P = λ (r : Option ℕ × TxSelector F). r.1 ≡ record s { current = r.1.current } in
      if_ind P (is_current s.current w) _ _ (λ e. refl)
        (λ e. if_ind P (held_back s ranking near rssi) _ _ (λ k. refl) (λ k. refl))

  -- A second pass over the same window never switches, whatever the first one did: two cards do not
  -- take turns while the counters stay.
  pub select_settles :
      (s : TxSelector F) (stats_agg : Dict AntStats)
      → let t = (select s stats_agg).1 in select t stats_agg ≡ (none, t)
  unfolding select
  select_settles s stats_agg =
      let ranking = (ranked s stats_agg).0 in
      let near = near_max s stats_agg in
      let b = best (candidates near ranking) in
      let t = (switch_to s ranking near b).1 in
      let fields = switch_to-fields s ranking near b in
      ap (λ u. select u stats_agg) fields
      ∙ select-fields s stats_agg t.current
      ∙ ap (λ u. switch_to u ranking near b) (sym fields)
      ∙ switch_to_again s ranking near b
