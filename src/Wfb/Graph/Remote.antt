-- ===== src/Wfb/Graph/Remote.antt =====
-- `build_graph_remote`: every card feeds an aggregator for each service, and is fed by a distributor.
use Prim.Native.String.{String, ◌++◌ as append}
use text.Mathlib.Text.{◌==◌ as str_eq}
use fpvd.Prelude.{ℕ, Bool, true, false, Option, none, some, List, [], ◌∷◌, ◌++◌, if◌then◌else◌}
use fpvd.Prelude.Dict.{get_by}
use fpvd.Prelude.Float.{Float}
use fpvd.Prelude.Show.{show}
use fpvd.Wfb.Cards.{Card, local_ifaces}
use fpvd.Wfb.Cluster.{
  ClusterPlan, Nodes, Streams, streams_for, local_node, injector_base, peers_of, sort_nodes,
}
use fpvd.Wfb.Cluster.Script.{LinkRadio, render_node_script, same_pair}
use fpvd.Wfb.Graph.{
  GraphConfig, ServiceSpec, GsGraph, rx_leg, tx_leg, video_leg, probe_leg, uplink_bw, probe_enabled,
  peer_of, sock,
}

abbrev pub forwarder : String → ℕ → ℕ → ℕ → List String → ServiceSpec
forwarder service port radio_port lid ifaces = record {
  name = append service " fwd";
  kind = "rx";
  argv =
      ("/usr/bin/wfb_rx"
        ∷ "-f"
        ∷ "-c"
        ∷ "127.0.0.1"
        ∷ "-u"
        ∷ show port
        ∷ "-p"
        ∷ show radio_port
        ∷ "-i"
        ∷ show lid
        ∷ "-R"
        ∷ "2097152"
        ∷ [])
      ++ ifaces;
  parser = none;
  unix_path = none;
}

abbrev pub injector : String → ℕ → List String → ServiceSpec
injector service base ifaces = record {
  name = append service " inj";
  kind = "tx";
  argv = ("/usr/bin/wfb_tx" ∷ "-I" ∷ show base ∷ "-R" ∷ "2097152" ∷ []) ++ ifaces;
  parser = none;
  unix_path = none;
}

-- What a step adds; `none` is a KeyError.
abbrev pub cons_some :
    Option (List ServiceSpec) → Option (List ServiceSpec) → Option (List ServiceSpec)
cons_some (some a) (some b) = some (a ++ b)
cons_some _ _ = none

abbrev pub forward_one : String → Option ℕ → Option ℕ → ℕ → List String → Option (List ServiceSpec)
forward_one service none port lid ifaces = some []
forward_one service (some radio_port) none lid ifaces = none
forward_one service (some radio_port) (some port) lid ifaces =
    some (forwarder service port radio_port lid ifaces ∷ [])

abbrev pub inject_one : String → Option ℕ → Option ℕ → List String → Option (List ServiceSpec)
inject_one service none base ifaces = some []
inject_one service (some radio_port) none ifaces = none
inject_one service (some radio_port) (some base) ifaces = some (injector service base ifaces ∷ [])

unfoldable pub forwarders :
    List (String × ℕ) → ℕ → List String → List (String × Streams) → Option (List ServiceSpec)
forwarders ports lid ifaces [] = some []
forwarders ports lid ifaces ((service, st) ∷ streams) =
    cons_some (forward_one service st.rx (get_by str_eq service ports) lid ifaces)
      (forwarders ports lid ifaces streams)

unfoldable pub injectors :
    List ((String × String) × ℕ) → List String → List (String × Streams) → Option (List ServiceSpec)
injectors bases ifaces [] = some []
injectors bases ifaces ((service, st) ∷ streams) =
    cons_some (inject_one service st.tx (get_by same_pair (local_node, service) bases) ifaces)
      (injectors bases ifaces streams)

abbrev pub cons_script :
    String → Option String → Option (List (String × String)) → Option (List (String × String))
cons_script node (some script) (some scripts) = some ((node, script) ∷ scripts)
cons_script node _ _ = none

-- The ports of the aggregators, each of which must be in the plan.
pub record ServerPorts : Type 0 where
  pub video : ℕ
  pub mavlink : ℕ
  pub tunnel : ℕ

abbrev pub ports_of : Option ℕ → Option ℕ → Option ℕ → Option ServerPorts
ports_of (some v) (some m) (some t) = some (record { video = v; mavlink = m; tunnel = t })
ports_of _ _ _ = none

abbrev pub server_ports : List (String × ℕ) → Option ServerPorts
server_ports ports =
    ports_of (get_by str_eq "video" ports) (get_by str_eq "mavlink" ports)
      (get_by str_eq "tunnel" ports)

abbrev pub aggregate : ℕ → List String
aggregate port = "-a" ∷ show port ∷ []

abbrev pub probe_at : ℕ → Option ℕ → Option (Option ServiceSpec)
probe_at lid none = none
probe_at lid (some port) = some (some (probe_leg lid [] (aggregate port)))

module _ {F : Type 0} ⦃fl : Float F⦄ where
  -- One script for each node that is not the local one.
  unfoldable pub node_scripts :
      ClusterPlan F
      → LinkRadio
      → ℕ
      → String
      → List (String × Streams)
      → Nodes F
      → Option (List (String × String))
  node_scripts plan link lid server streams [] = some []
  node_scripts plan link lid server streams ((node, cards) ∷ nodes) =
      let rest = node_scripts plan link lid server streams nodes in
      if str_eq node local_node
      then rest
      else cons_script node (render_node_script node cards plan link lid server true streams) rest

  abbrev pub has_local : Option (List (Card F)) → Bool
  has_local none = false
  has_local (some []) = false
  has_local (some (c ∷ cards)) = true

  abbrev pub remote_of :
      GraphConfig
      → ClusterPlan F
      → ℕ
      → (ℕ → String)
      → String
      → ServerPorts
      → List ServiceSpec
      → List ServiceSpec
      → List (String × String)
      → Option ServiceSpec
      → GsGraph
  remote_of cfg plan lid suffix peer ports fwd inj scripts probe =
      let mr = sock "mavlink-rx-" suffix 0 in
      let mt = sock "mavlink-tx-" suffix 1 in
      let tr = sock "tunnel-rx-" suffix 2 in
      let t = sock "tunnel-tx-" suffix 3 in
      record {
        video_rx = video_leg cfg lid [] (aggregate ports.video);
        mavlink_rx = rx_leg "mavlink_rx" "16" lid mr [] (aggregate ports.mavlink);
        mavlink_tx =
            tx_leg "mavlink_tx" 144 (uplink_bw cfg) lid mt (peers_of "mavlink" plan.allocations)
              ("-d" ∷ []);
        tunnel_rx = rx_leg "tunnel_rx" "32" lid tr [] (aggregate ports.tunnel);
        tunnel_tx =
            tx_leg "tunnel_tx" 160 (uplink_bw cfg) lid t (peers_of "tunnel" plan.allocations)
              ("-d" ∷ []);
        mav_rx_sock = mr;
        mav_peer = peer;
        tun_rx_sock = tr;
        local_forwarders = fwd;
        local_injectors = inj;
        node_scripts = scripts;
        probe_rx = probe;
      }

  abbrev pub assemble :
      GraphConfig
      → ClusterPlan F
      → ℕ
      → (ℕ → String)
      → Option String
      → Option ServerPorts
      → Option (List ServiceSpec)
      → Option (List ServiceSpec)
      → Option (List (String × String))
      → Option (Option ServiceSpec)
      → Option GsGraph
  assemble cfg plan lid suffix (some peer) (some ports) (some fwd) (some inj) (some scripts)
        (some probe) =
      some (remote_of cfg plan lid suffix peer ports fwd inj scripts probe)
  assemble cfg plan lid suffix _ _ _ _ _ _ = none

  -- `none` is a ValueError or a KeyError.
  unfoldable pub build_graph_remote :
      GraphConfig → ℕ → List (Card F) → ClusterPlan F → String → (ℕ → String) → Option GsGraph
  build_graph_remote cfg lid cards plan server suffix =
      let streams = streams_for (probe_enabled cfg) in
      let ports = plan.server_port in
      let ifaces = local_ifaces cards in
      let here = has_local (get_by str_eq local_node plan.nodes) in
      assemble cfg plan lid suffix (peer_of cfg) (server_ports ports)
        (if here then forwarders ports lid ifaces streams else some [])
        (if here then injectors (injector_base plan.allocations) ifaces streams else some [])
        (node_scripts plan cfg.link lid server streams (sort_nodes plan.nodes))
        (if probe_enabled cfg then probe_at lid (get_by str_eq "probe" ports) else some none)
