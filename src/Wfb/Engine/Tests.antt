-- ===== src/Wfb/Engine/Tests.antt =====
-- An engine with two local cards, one with a remote card, and a respawned transmitter.
use Prim.Native.Nat.{bit_or}
use Prim.Native.String.{String}
use text.Mathlib.Text.{◌==◌ as str_eq}
use mathlib.Core.List.{mem-cons_self}
use fpvd.Prelude.{◌≡◌, refl, true, false, not, none, some, List, [], ◌∷◌, if◌then◌else◌}
use fpvd.Prelude.Int.{ℤ}
use fpvd.Prelude.Dict.{get_by, put_by}
use fpvd.Prelude.Fixed.{milli}
use fpvd.Wfb.Cards.{
  Card, CardObject, name, object, these, off, local_card, parse_cards, parse_entries,
}
use fpvd.Wfb.Cluster.{
  ClusterPlan, service_order, number_services, group_cards, add_card, sort_nodes, allocate_all,
  plan_cluster, rx_only_of, rx_only_wlan_ids,
}
use fpvd.Wfb.Graph.{GraphConfig, GsGraph, graph_of}
use fpvd.Wfb.Graph.Complete.{Complete}
use fpvd.Wfb.Engine.TxSockets.{Children, Wiring, Connects, apply_tx_selection, check_tx_respawns}
use fpvd.Wfb.Tunnel.{Socket, TunnelService, set_tx_socket, set_all_tx_sockets}
use fpvd.Wfb.Engine.Wired.{AllKept, AllAimed, check_tx_respawns-AllAimed}
use fpvd.Wfb.Engine.Setup.{
  LegStart, up, start_raised, wired, leg_names, setup, start_legs, stop_children, stop_child,
}
use fpvd.Wfb.Engine.Balance.{idle, kept_legs, Balanced, setup-Balanced}
use fpvd.Wfb.Engine.Prepare.{EngineConfig, World, prepare, prepare-Complete}
use fpvd.Prelude.{ℕ, ◌++◌}
use fpvd.Prelude.Int.{pos, ◌*ℤ◌}
use fpvd.Wfb.Cluster.Session.{NodeSession, Spawn, landed, os_error, new, retry, on_exit}
use fpvd.Wfb.Engine.Setup.{NodeView}
use fpvd.Wfb.Engine.Nodes.{watch_all, InSync, watch_all-InSync}
use fpvd.Wfb.Engine.Lifecycle.{
  Lifecycle, Op, start_op, stop_op, restart_op, start, stop, restart, operate_all, asked,
  operate_all-Asked,
}

-- The tunnel's transmitter is wired, Mavlink's was respawned as the parser 7.
abbrev children : Children
children =
    ("video_rx", none)
    ∷ ("mavlink_tx", some (record { id = 7; unix_sockets = (0, "mav-0") ∷ (256, "mav-1") ∷ [] }))
    ∷ ("tunnel_tx", some (record { id = 3; unix_sockets = (0, "tun-0") ∷ (256, "tun-1") ∷ [] }))
    ∷ []

-- The second socket of the tunnel's transmitter refuses.
abbrev connects : Connects
connects = record {
  mavlink = λ name. true;
  selected = λ name. not (str_eq name "tun-1");
  all = λ name. not (str_eq name "tun-1");
}

abbrev tunnel_socket : Socket
tunnel_socket = record { name = "tun-0"; id = 0 }

abbrev tunnel : TunnelService ℤ
tunnel = record {
  agg = none;
  tx_socks = tunnel_socket ∷ [];
  tx_sock = some tunnel_socket;
  pkt_in_sem = 0;
  pkt_out_sem = 0;
  tun = true;
  dropped_tun_writes = 0;
  next_id = 1;
  closed = [];
  sent = [];
  written = [];
}

abbrev wiring : Wiring ℤ
wiring = record {
  tx_parser_ids = ("mavlink_tx", 2) ∷ ("tunnel_tx", 3) ∷ [];
  mav_socket = some "old-0";
  tunnel = tunnel;
}

-- The selected socket refuses twice, so the tunnel sends to a new connection of the other one.
rewired : check_tx_respawns ⦃fl = milli⦄ connects children (some 256) wiring ≡ record {
  tx_parser_ids = ("mavlink_tx", 7) ∷ ("tunnel_tx", 3) ∷ [];
  mav_socket = some "mav-1";
  tunnel = record tunnel {
    tx_socks = record { name = "tun-0"; id = 2 } ∷ [];
    tx_sock = some (record { name = "tun-0"; id = 2 });
    next_id = 4;
    closed = tunnel_socket ∷ [];
  };
}
unfolding check_tx_respawns apply_tx_selection get_by put_by set_tx_socket set_all_tx_sockets milli
rewired = refl

kept : AllKept connects children wiring
unfolding get_by
kept = (tt, (refl, record { each = (refl, (refl, tt)); only = (refl, tt) }, mem-cons_self))

check_tx_respawns-AllAimed_example :
    AllAimed connects children (check_tx_respawns ⦃fl = milli⦄ connects children (some 256) wiring)
check_tx_respawns-AllAimed_example =
    check_tx_respawns-AllAimed ⦃fl = milli⦄ connects children (some 256) wiring kept

abbrev graph_config : GraphConfig
graph_config = record {
  link = record { width = none; region = some "US"; channel = some 165 };
  video_encryption = none;
  tap_enabled = none;
  tap_port = none;
  dynamic_link = some true;
  probe = some true;
  mavlink_peer = some "connect://127.0.0.1:14550";
}

abbrev graph : GsGraph
graph = graph_of graph_config 7 ("wlan0" ∷ []) (λ i. "x") "connect://127.0.0.1:14550"

-- The transmitter of the tunnel is constructed, and its start raises: nothing stops it.
abbrev leg : String → LegStart
leg s = if str_eq s "tunnel_tx" then start_raised else up

undone :
    (setup (idle 0 [] [] []) false (some graph) leg wired (λ node. true)).0.effects
    ≡ stop_child "mavlink_tx"
      ∷ stop_child "tunnel_rx"
      ∷ stop_child "mavlink_rx"
      ∷ stop_child "video_rx"
      ∷ []
unfolding setup start_legs stop_children
undone = refl

setup-Balanced_example :
    Balanced []
      (leg_names false graph)
      (kept_legs leg false graph)
      (setup (idle 0 [] [] []) false (some graph) leg wired (λ node. true))
setup-Balanced_example = setup-Balanced 0 [] [] [] false graph leg wired (λ node. true)

abbrev remote_card : Card ℤ
remote_card = record (local_card "wlan2") { host = some "10.0.0.2"; txpower_dbm = off }

abbrev cards : List (Card ℤ)
cards = local_card "wlan0" ∷ remote_card ∷ []

abbrev remote_object : CardObject ℤ
remote_object = record {
  host = some "10.0.0.2";
  iface = some "wlan2";
  ssh_user = none;
  ssh_port = none;
  ssh_key = none;
  txpower_dbm = off;
  init_script = none;
}

abbrev config : EngineConfig ℤ
config = record {
  cards = record { cards = some (name "wlan0" ∷ object remote_object ∷ []); wlans = none };
  graph = graph_config;
}

abbrev world : World
world = record {
  wlans = none;
  radio_ok = true;
  server_address = some "10.0.0.1";
  inet_aton = λ host. some 167772162;
  link_id = 7;
  suffix = λ i. "x";
}

abbrev plan : ClusterPlan ℤ
plan = record {
  nodes = group_cards cards [];
  server_port = number_services 10000 (service_order true);
  allocations = allocate_all 11000 [] (sort_nodes (group_cards cards [])) (service_order true);
  rx_only = bit_or 2814749800660992 0 ∷ [];
}

parsed : parse_cards config.cards ≡ some (these cards)
unfolding parse_cards parse_entries
parsed = refl

planned : plan_cluster world.inet_aton cards 10000 11000 true ≡ some plan
unfolding plan_cluster rx_only_wlan_ids rx_only_of group_cards add_card
planned = refl

prepare-Complete_example : Complete ⦃fl = milli⦄ plan (prepare ⦃fl = milli⦄ config world)
prepare-Complete_example =
    prepare-Complete ⦃fl = milli⦄ config world cards plan "10.0.0.1" "connect://127.0.0.1:14550"
      parsed refl refl refl planned refl

-- A boot, a restart with a pending configuration, a stop and a start.
abbrev ops : List (Op ℕ)
ops =
    start_op (some 1) true
    ∷ restart_op (some 2) (some 1) true
    ∷ start_op (some 3) true
    ∷ stop_op
    ∷ start_op (some 3) true
    ∷ []

abbrev down : Lifecycle ℕ
down = record { thread = false; start_ok = false; staged = none; restarts = 0; built = [] }

built : (operate_all down ops).built ≡ 1 ∷ 2 ∷ 3 ∷ []
unfolding operate_all start stop restart
built = refl

operate_all-Asked_example : (operate_all down ops).built ≡ down.built ++ asked down.thread ops
operate_all-Asked_example = operate_all-Asked ops down refl

-- A node that comes up at once, and is lost with a failure before it is back.
abbrev session : NodeSession ℤ
session = record (new ⦃fl = milli⦄ (pos 2000) (pos 30000) none) {
  supervise = true;
  proc = true;
  alive = true;
  spawned_at = some (pos 0);
}

abbrev exits : List (ℤ × List (Spawn ℤ))
exits = (pos 60000, os_error ∷ landed (pos 66000) ∷ []) ∷ (pos 70000, os_error ∷ []) ∷ []

abbrev up_view : NodeView
up_view = record { alive = true; restarts = 0 }

viewed :
    (watch_all ⦃fl = milli⦄ (session, up_view) exits).1 ≡ record { alive = false; restarts = 2 }
unfolding watch_all retry on_exit milli ◌*ℤ◌
viewed = refl

watch_all-InSync_example :
    (let r = watch_all ⦃fl = milli⦄ (session, up_view) exits in InSync ⦃fl = milli⦄ r.0 r.1)
watch_all-InSync_example = watch_all-InSync ⦃fl = milli⦄ session up_view exits (refl, refl)
