-- ===== src/Wfb/Tunnel/Sockets.antt =====
-- The tunnel's keepalive, its downlink and its sockets.
use fpvd.Prelude.{
  ℕ, zero, suc, ◌+◌, ◌-◌, ◌==◌, ◌<◌, ◌≡◌, ◌∙◌, ap, sym, inl, inr, refl, Bool, true, false, List, [],
  ◌∷◌, ◌++◌, arith, ltb, if◌then◌else◌, length, keep, map, any, Bool-cases, All,
}
use mathlib.Core.List.{append_assoc, append-nil}
use fpvd.Prelude.Float.{Float}
use fpvd.Wfb.AggQueue.{Bytes}
use fpvd.Wfb.Tunnel.{
  TunnelService, to_all, keepalive_tick, send_to_current_tx, unpack_batch, write_outcome,
  write_to_tun, write_all, on_rx_batch, Write, done, busy, failed,
}
use fpvd.Wfb.Tunnel.Framing.{frame_all, unpack_batch-empty, unpack_batch-frame_all}

abbrev is_kind : Write → Write → Bool
is_kind done done = true
is_kind busy busy = true
is_kind failed failed = true
is_kind _ _ = false

-- Each packet with the outcome of its write.
abbrev pub with_outcomes : (ℕ → Write) → List Bytes → List (Write × Bytes)
with_outcomes outcomes [] = []
with_outcomes outcomes (p ∷ ps) = (outcomes 0, p) ∷ with_outcomes (λ i. outcomes (suc i)) ps

abbrev before_failure : List (Write × Bytes) → List (Write × Bytes)
before_failure [] = []
before_failure (w ∷ ws) = if is_kind failed w.0 then [] else w ∷ before_failure ws

abbrev of_kind : Write → List (Write × Bytes) → List Bytes
of_kind k ws = map (λ w. w.1) (keep (λ w. is_kind k w.0) ws)

module _ {F : Type 0} ⦃fl : Float F⦄ where
  abbrev pub keepalive_ticks : ℕ → TunnelService F → TunnelService F
  keepalive_ticks zero s = s
  keepalive_ticks (suc n) s = keepalive_ticks n (keepalive_tick s)

  keepalive_tick-fixed :
      (s : TunnelService F)
      → ((keepalive_tick s).pkt_in_sem ≡ s.pkt_in_sem - 1)
        × ((keepalive_tick s).tx_socks ≡ s.tx_socks)
        × ((keepalive_tick s).tx_sock ≡ s.tx_sock)
  unfolding keepalive_tick
  keepalive_tick-fixed s = ground arith

  keepalive_ticks-fixed :
      (n : ℕ) (s : TunnelService F)
      → ((keepalive_ticks n s).pkt_in_sem ≡ s.pkt_in_sem - n)
        × ((keepalive_ticks n s).tx_socks ≡ s.tx_socks)
  keepalive_ticks-fixed zero s = (omega arith, refl)
  keepalive_ticks-fixed (suc n) s =
      let t = keepalive_tick-fixed s in
      let r = keepalive_ticks-fixed n (keepalive_tick s) in (omega (arith, t.0, r.0), r.1 ∙ t.1)

  -- An empty datagram to every socket.
  abbrev pub ToAll : TunnelService F → TunnelService F → Type 0
  ToAll s t = t.sent ≡ s.sent ++ to_all s.tx_socks []

  tick_broadcasts : (s : TunnelService F) → s.pkt_in_sem ≡ 0 → ToAll s (keepalive_tick s)
  unfolding keepalive_tick
  tick_broadcasts s h = ground (arith, h)

  tick_directed :
      (s : TunnelService F)
      → 0 < s.pkt_in_sem
      → (keepalive_tick s).sent
        ≡ (if s.pkt_out_sem == 0 then (send_to_current_tx s []).sent else s.sent)
  unfolding keepalive_tick
  tick_directed s h = ground (arith, h)

  -- While no batch comes after one that set the receive counter to 2, the first two keepalive
  -- ticks send at most to the current socket, and that only when the uplink counter is 0; from the
  -- third on each tick sends an empty datagram to every socket.
  pub keepalive_after_batch :
      (s : TunnelService F) (n : ℕ)
      → s.pkt_in_sem ≡ 2
      → let t = keepalive_ticks n s in
        (keepalive_tick t).sent ≡ (
          if ltb n 2
          then (if t.pkt_out_sem == 0 then (send_to_current_tx t []).sent else t.sent)
          else t.sent ++ to_all s.tx_socks [])
  keepalive_after_batch s n h =
      let f = keepalive_ticks-fixed n s in
      let t = keepalive_ticks n s in
      elim (Bool-cases (ltb n 2)) [
        | inl e ↦ rw e (tick_directed t (ground (arith, f.0, h, e)))
        | inr e ↦ rw e (
            tick_broadcasts t (ground (arith, f.0, h, e))
            ∙ ap (λ socks. t.sent ++ to_all socks []) f.1)
      ]

  -- What the downlink does with a batch: the new state, and whether it raises.
  pub record Delivered (s : TunnelService F) (r : TunnelService F × Bool)
      (ws : List (Write × Bytes)) : Type 0 where
    pub written : r.0.written ≡ s.written ++ of_kind done (before_failure ws)
    pub dropped :
        r.0.dropped_tun_writes ≡ s.dropped_tun_writes + length (of_kind busy (before_failure ws))
    pub raised : r.1 ≡ any (λ w. is_kind failed w.0) ws

  write_open :
      (s : TunnelService F) (o : Write) (p : Bytes)
      → s.tun ≡ true
      → write_to_tun s o p ≡ write_outcome s o p
  unfolding write_to_tun
  write_open s o p up = ap (λ b. if b then write_outcome s o p else (s, false)) up

  -- A write that is followed by others.
  write-Delivered :
      (o : Write) (p : Bytes) (s : TunnelService F) (ws : List (Write × Bytes))
      (more : TunnelService F → TunnelService F × Bool)
      → s.tun ≡ true
      → ((t : TunnelService F) → t.tun ≡ true → Delivered t (more t) ws)
      → (let r = write_to_tun s o p in Delivered s (if r.1 then r else more r.0) ((o, p) ∷ ws))
  write-Delivered done p s ws more up h =
      let d = h (record s { written = s.written ++ p ∷ [] }) up in
      rw (write_open s done p up) (record {
        written = d.written ∙ append_assoc s.written (p ∷ []) (of_kind done (before_failure ws));
        dropped = d.dropped;
        raised = d.raised;
      })
  write-Delivered busy p s ws more up h =
      let d = h (record s { dropped_tun_writes = s.dropped_tun_writes + 1 }) up in
      rw (write_open s busy p up)
        (record { written = d.written; dropped = omega (arith, d.dropped); raised = d.raised })
  write-Delivered failed p s ws more up h =
      rw (write_open s failed p up)
        (record { written = sym (append-nil s.written); dropped = omega arith; raised = refl })

  write_all-Delivered :
      (outcomes : ℕ → Write) (s : TunnelService F) (ps : List Bytes)
      → s.tun ≡ true
      → Delivered s (write_all outcomes s ps) (with_outcomes outcomes ps)
  write_all-Delivered outcomes s [] up = record {
    written = sym (append-nil s.written);
    dropped = omega arith;
    raised = refl;
  }
  write_all-Delivered outcomes s (p ∷ ps) up =
      write-Delivered (outcomes 0) p s (with_outcomes (λ i. outcomes (suc i)) ps)
        (λ t. write_all (λ i. outcomes (suc i)) t ps) up
        (λ t h. write_all-Delivered (λ i. outcomes (suc i)) t ps h)

  -- A batch of one or more framed packets, each shorter than 65536 bytes, comes to the open device.
  -- Up to the first write that fails with an error other than being busy, the packets whose write is
  -- taken are written in order, and those that find the device busy are dropped and counted. The
  -- handler raises just when a write fails so, and then no later packet of the batch is written or
  -- counted.
  pub on_rx_batch-Delivered :
      (outcomes : ℕ → Write) (s : TunnelService F) (p : Bytes) (ps : List Bytes)
      → s.tun ≡ true
      → All (λ (q : Bytes). length q < 65536) (p ∷ ps)
      → Delivered s (on_rx_batch outcomes s (frame_all (p ∷ ps))) (with_outcomes outcomes (p ∷ ps))
  unfolding on_rx_batch
  on_rx_batch-Delivered outcomes s p ps up h =
      let e : unpack_batch (frame_all (p ∷ ps)) ≡ p ∷ ps =
        ap unpack_batch (sym (append-nil (frame_all (p ∷ ps))))
        ∙ (unpack_batch-frame_all (p ∷ ps) [] h
            ∙ (ap (λ r. (p ∷ ps) ++ r) unpack_batch-empty ∙ append-nil (p ∷ ps))) in
      rw e (
        let r = write_all-Delivered outcomes (record s { pkt_in_sem = 2 }) (p ∷ ps) up in
        record { written = r.written; dropped = r.dropped; raised = r.raised })
