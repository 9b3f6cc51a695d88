-- ===== src/Wfb/Tunnel.antt =====
-- gs/fpvdgs/wfb/tunnel.py: the wire framing and `TunnelService`, which bridges the tun device and the
-- radio sockets. Opening the device and the event loop are not modelled: a read of the device and
-- the outcome of a connect are arguments, and what is sent and written is kept, the oldest first.
pub mod Framing
pub mod Sockets
pub mod Covers
pub mod Fresh
mod Tests
use Prim.Native.String.{String}
use text.Mathlib.Text.{◌==◌ as str_eq}
use fpvd.Prelude.{
  ℕ, zero, suc, ◌+◌, ◌-◌, ◌*◌, ◌/◌, ◌%◌, ◌==◌, Bool, true, false, not, Option, none, some, List, [],
  ◌∷◌, ◌++◌, ltb, if◌then◌else◌, length, take, drop,
}
use fpvd.Prelude.Float.{Float}
use fpvd.Wfb.AggQueue
use fpvd.Wfb.AggQueue.{Bytes, AggQueue}

-- `struct.pack("!H", len(packet)) + packet`; `none` is the struct.error of a length over 16 bits.
unfoldable pub pack_tun : Bytes → Option Bytes
pack_tun packet =
    let n = length packet in if ltb n 65536 then some (n / 256 ∷ n % 256 ∷ packet) else none

-- The loop of `unpack_batch` on what is left of the batch. A turn that goes on takes two bytes or more.
pub unpack_from : ℕ → Bytes → List Bytes
unpack_from zero msg = []
unpack_from (suc n) [] = []
unpack_from (suc n) (h ∷ []) = []
unpack_from (suc n) (h ∷ l ∷ body) =
    let size = h * 256 + l in
    let rest = unpack_from n (drop size body) in
    if ltb (length body) size then [] else take size body ∷ rest

unfoldable pub unpack_batch : Bytes → List Bytes
unfolding unpack_from
unpack_batch msg = unpack_from (length msg) msg

-- A connected socket: the name of its peer, and a number that no other socket has.
pub record Socket : Type 0 where
  pub name : String
  pub id : ℕ

-- A write of the device: it is taken, it would block, or it fails with another OSError, which nothing
-- catches.
pub data Write : Type 0 where
  done busy failed : Write

pub record TunnelService (F : Type 0) : Type 0 where
  pub agg : Option (AggQueue F)
  pub tx_socks : List Socket
  pub tx_sock : Option Socket  -- `_tx_sock` and its name, which are set together
  pub pkt_in_sem : ℕ
  pub pkt_out_sem : ℕ
  pub tun : Bool
  pub dropped_tun_writes : ℕ
  pub next_id : ℕ
  pub closed : List Socket
  pub sent : List (Socket × Bytes)
  pub written : List Bytes

-- `pop(name, None)` of a dictionary of sockets: the sockets of the name, and the others.
abbrev pub named : String → List Socket → List Socket
named name [] = []
named name (s ∷ ss) = let rest = named name ss in if str_eq s.name name then s ∷ rest else rest

abbrev pub others : String → List Socket → List Socket
others name [] = []
others name (s ∷ ss) = let rest = others name ss in if str_eq s.name name then rest else s ∷ rest

abbrev pub first : List Socket → Option Socket
first [] = none
first (s ∷ ss) = some s

abbrev pub to_all : List Socket → Bytes → List (Socket × Bytes)
to_all [] msg = []
to_all (sock ∷ socks) msg = (sock, msg) ∷ to_all socks msg

-- `socks[name] = sock`, which keeps the place of a name.
abbrev pub assign : Socket → List Socket → List Socket
assign sock [] = sock ∷ []
assign sock (s ∷ ss) =
    let rest = assign sock ss in if str_eq s.name sock.name then sock ∷ ss else s ∷ rest

abbrev pub assign_known : Option Socket → List Socket → List Socket
assign_known none socks = socks
assign_known (some sock) socks = assign sock socks

abbrev pub current_of : Option Socket → List Socket → Option Socket
current_of none new = none
current_of (some sock) new = first (named sock.name new)

module _ {F : Type 0} ⦃fl : Float F⦄ where
  abbrev pub send_to : TunnelService F → Option Socket → Bytes → TunnelService F
  send_to s none msg = s
  send_to s (some sock) msg = record s { sent = s.sent ++ (sock, msg) ∷ [] }

  -- `_send_to_current_tx`
  abbrev pub send_to_current_tx : TunnelService F → Bytes → TunnelService F
  send_to_current_tx s msg = send_to s s.tx_sock msg

  -- `_broadcast`
  abbrev pub broadcast : TunnelService F → Bytes → TunnelService F
  broadcast s msg = record s { sent = s.sent ++ to_all s.tx_socks msg }

  -- `_keepalive_tick`
  unfoldable pub keepalive_tick : TunnelService F → TunnelService F
  keepalive_tick s =
      let t =
        if s.pkt_in_sem == 0
        then broadcast s []
        else if s.pkt_out_sem == 0
        then send_to_current_tx s []
        else s in
      record t { pkt_in_sem = t.pkt_in_sem - 1; pkt_out_sem = t.pkt_out_sem - 1 }

  abbrev pub forward : TunnelService F → List Bytes → TunnelService F
  forward s [] = s
  forward s (b ∷ bs) = forward (send_to_current_tx s b) bs

  -- The queue's `send` is `_send_to_current_tx`: the batches that one of its operations sends go to the
  -- current socket.
  abbrev pub with_queue :
      (AggQueue F → AggQueue F) → TunnelService F → Option (AggQueue F) → TunnelService F
  with_queue operation s none = s
  with_queue operation s (some q) =
      let r = operation (record q { sent = [] }) in
      forward (record s { agg = some (record r { sent = q.sent ++ r.sent }) }) r.sent

  -- The queue's timer.
  unfoldable pub on_agg_timer : TunnelService F → TunnelService F
  on_agg_timer s = with_queue AggQueue.fire s s.agg

  -- `_on_tun_readable`, given what the read returns; `none` is an OSError. The result is `none` on the
  -- struct.error of `pack_tun`.
  unfoldable pub on_tun_readable : TunnelService F → Option Bytes → Option (TunnelService F)
  on_tun_readable s none = some s
  on_tun_readable s (some []) = some s
  on_tun_readable s (some (b ∷ bs)) =
      let t = record s { pkt_out_sem = 1 } in
      elim s.agg [
        | none ↦ some t
        | some q ↦ elim (pack_tun (b ∷ bs)) [
          | none ↦ none
          | some packed ↦ some (with_queue (λ r. AggQueue.put r packed) t (some q))
        ]
      ]

  abbrev pub write_outcome : TunnelService F → Write → Bytes → TunnelService F × Bool
  write_outcome s done packet = (record s { written = s.written ++ packet ∷ [] }, false)
  write_outcome s busy packet = (record s { dropped_tun_writes = s.dropped_tun_writes + 1 }, false)
  write_outcome s failed packet = (s, true)

  -- `_write_to_tun`, given the outcome of the write. The Boolean is true when it raises.
  unfoldable pub write_to_tun : TunnelService F → Write → Bytes → TunnelService F × Bool
  write_to_tun s outcome packet = if s.tun then write_outcome s outcome packet else (s, false)

  -- The loop of `_on_rx_batch`, given the outcomes of its writes in order: one that raises ends it.
  abbrev pub write_all : (ℕ → Write) → TunnelService F → List Bytes → TunnelService F × Bool
  write_all outcomes s [] = (s, false)
  write_all outcomes s (p ∷ ps) =
      let r = write_to_tun s (outcomes 0) p in
      let rest = write_all (λ i. outcomes (suc i)) r.0 ps in if r.1 then r else rest

  -- `_on_rx_batch`; an empty batch is a keepalive.
  unfoldable pub on_rx_batch : (ℕ → Write) → TunnelService F → Bytes → TunnelService F × Bool
  on_rx_batch outcomes s [] = (record s { pkt_in_sem = 2 }, false)
  on_rx_batch outcomes s (b ∷ bs) =
      write_all outcomes (record s { pkt_in_sem = 2 }) (unpack_batch (b ∷ bs))

  -- `_connect_tx_socket`: a new socket, if the connect succeeds.
  abbrev pub connect : (String → Bool) → TunnelService F → String → TunnelService F × Option Socket
  connect can s name =
      if can name
      then (record s { next_id = s.next_id + 1 }, some (record { name = name; id = s.next_id }))
      else (record s { next_id = s.next_id + 1 }, none)

  -- The loop of `set_all_tx_sockets`: `old` is what is left to close, `new` what is connected.
  abbrev pub reconnect :
      (String → Bool)
      → TunnelService F
      → List String
      → (old new : List Socket) → TunnelService F × List Socket × List Socket
  reconnect can s [] old new = (s, old, new)
  reconnect can s (name ∷ names) old new =
      let t = record s { closed = s.closed ++ named name old } in
      reconnect can (connect can t name).0 names (others name old)
        (assign_known (connect can t name).1 new)

  unfoldable pub set_all_tx_sockets :
      (String → Bool) → TunnelService F → List String → TunnelService F
  set_all_tx_sockets can s names =
      let (t, old, new) = reconnect can s names s.tx_socks [] in
      record t { closed = t.closed ++ old; tx_socks = new; tx_sock = current_of s.tx_sock new }

  abbrev pub select_socket : TunnelService F → Option Socket → TunnelService F
  select_socket s none = s
  select_socket s (some sock) = record s { tx_socks = assign sock s.tx_socks; tx_sock = some sock }

  unfoldable pub set_tx_socket : (String → Bool) → TunnelService F → Option String → TunnelService F
  set_tx_socket can s none = record s { tx_sock = none }
  set_tx_socket can s (some name) =
      let t = record s {
        closed = s.closed ++ named name s.tx_socks;
        tx_socks = others name s.tx_socks;
      } in
      select_socket (connect can t name).0 (connect can t name).1

  -- `stop`: what is queued is sent before the sockets close.
  unfoldable pub stop : TunnelService F → TunnelService F
  stop s =
      let t = with_queue (λ q. AggQueue.close (AggQueue.flush q)) s s.agg in
      record t {
        agg = none;
        closed = t.closed ++ t.tx_socks;
        tx_socks = [];
        tx_sock = none;
        tun = false;
      }
