-- ===== src/Wfb/Tunnel/Tests.antt =====
-- The tunnel at concrete packets and sockets.
use fpvd.Prelude.{
  ℕ, ◌≡◌, ◌++◌, ◌==◌, ltb, refl, true, some, List, [], ◌∷◌, arith, if◌then◌else◌, length, All,
}
use fpvd.Prelude.Int.{ℤ, pos}
use fpvd.Prelude.Fixed.{milli}
use fpvd.Wfb.AggQueue
use fpvd.Wfb.AggQueue.{Bytes}
use fpvd.Wfb.Tunnel.{
  Socket, TunnelService, pack_tun, unpack_from, unpack_batch, on_rx_batch, keepalive_tick,
  write_to_tun, Write, done, busy, failed, set_all_tx_sockets, to_all, send_to_current_tx,
}
use fpvd.Wfb.Tunnel.Framing.{frame_all, pack_all, unpack_batch-pack_all, unpack_from_fuel}
use fpvd.Wfb.Tunnel.Sockets.{
  keepalive_ticks, keepalive_after_batch, Delivered, on_rx_batch-Delivered, with_outcomes,
}
use fpvd.Wfb.Tunnel.Fresh.{set_all_tx_sockets-IsFresh, IsFresh, FirstIsFresh}

abbrev first_socket : Socket
first_socket = record { name = "tx0"; id = 0 }

abbrev second_socket : Socket
second_socket = record { name = "tx1"; id = 1 }

abbrev service : TunnelService ℤ
service = record {
  agg = some (AggQueue.new ⦃fl = milli⦄ (some 1445) (some (pos 5)));
  tx_socks = first_socket ∷ second_socket ∷ [];
  tx_sock = some first_socket;
  pkt_in_sem = 2;
  pkt_out_sem = 0;
  tun = true;
  dropped_tun_writes = 0;
  next_id = 2;
  closed = [];
  sent = [];
  written = [];
}

abbrev packets : List Bytes
packets = (1 ∷ 2 ∷ 3 ∷ []) ∷ [] ∷ (9 ∷ []) ∷ []

unpack_run : unpack_batch (0 ∷ 3 ∷ 1 ∷ 2 ∷ 3 ∷ 0 ∷ 9 ∷ 1 ∷ []) ≡ (1 ∷ 2 ∷ 3 ∷ []) ∷ []
unfolding unpack_batch unpack_from
unpack_run = refl

-- A corrupt byte after three packets.
packed : pack_all packets ≡ some (frame_all packets)
unfolding pack_tun
packed = refl

unpack_batch-pack_all_example :
    unpack_batch (frame_all packets ++ 7 ∷ []) ≡ packets ++ unpack_batch (7 ∷ [])
unpack_batch-pack_all_example = unpack_batch-pack_all packets (frame_all packets) (7 ∷ []) packed

unpack_from_fuel_run : unpack_from 9 (0 ∷ 1 ∷ 5 ∷ []) ≡ unpack_from 3 (0 ∷ 1 ∷ 5 ∷ [])
unpack_from_fuel_run = unpack_from_fuel 9 3 (0 ∷ 1 ∷ 5 ∷ []) (ground arith) (ground arith)

-- The device is busy at the second write, and the fourth fails.
abbrev outcomes : ℕ → Write
outcomes i = if i == 1 then busy else if i == 3 then failed else done

abbrev more_packets : List Bytes
more_packets = [] ∷ (9 ∷ []) ∷ (4 ∷ []) ∷ (5 ∷ []) ∷ []

delivered :
    (on_rx_batch ⦃fl = milli⦄ outcomes service
      (frame_all ((1 ∷ 2 ∷ 3 ∷ []) ∷ more_packets))).0.written
    ≡ (1 ∷ 2 ∷ 3 ∷ []) ∷ (9 ∷ []) ∷ []
unfolding on_rx_batch write_to_tun unpack_batch unpack_from milli
delivered = refl

on_rx_batch-Delivered_example :
    Delivered ⦃fl = milli⦄ service
      (on_rx_batch ⦃fl = milli⦄ outcomes service (frame_all ((1 ∷ 2 ∷ 3 ∷ []) ∷ more_packets)))
      (with_outcomes outcomes ((1 ∷ 2 ∷ 3 ∷ []) ∷ more_packets))
on_rx_batch-Delivered_example =
    on_rx_batch-Delivered ⦃fl = milli⦄ outcomes service (1 ∷ 2 ∷ 3 ∷ []) more_packets refl
      (ground arith, (ground arith, (ground arith, (ground arith, (ground arith, tt)))))

keepalive_after_batch_run :
    let t = keepalive_ticks ⦃fl = milli⦄ 3 service in
    (keepalive_tick ⦃fl = milli⦄ t).sent ≡ (
      if ltb 3 2
      then (if t.pkt_out_sem == 0 then (send_to_current_tx ⦃fl = milli⦄ t []).sent else t.sent)
      else t.sent ++ to_all service.tx_socks [])
keepalive_after_batch_run = keepalive_after_batch ⦃fl = milli⦄ service 3 refl

set_all_tx_sockets-IsFresh_run :
    let t = set_all_tx_sockets ⦃fl = milli⦄ (λ _. true) service ("tx0" ∷ "tx2" ∷ []) in
    All (IsFresh 2) t.tx_socks × FirstIsFresh 2 t.tx_sock × (length t.closed ≡ 2)
set_all_tx_sockets-IsFresh_run =
    set_all_tx_sockets-IsFresh ⦃fl = milli⦄ (λ _. true) service ("tx0" ∷ "tx2" ∷ [])
