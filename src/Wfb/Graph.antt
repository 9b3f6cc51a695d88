-- ===== src/Wfb/Graph.antt =====
-- gs/fpvdgs/wfb/graph.py: the commands of the radio processes. `link_id` is the nonce that SHA-1 gives
-- for the link's domain, an argument here, and `suffix` gives the random end of each socket's name.
pub mod Remote
pub mod Keys
pub mod Complete
mod Tests
use Prim.Native.String.{String, ◌++◌ as append}
use fpvd.Prelude.{
  ℕ, Bool, true, false, ◌&&◌, Option, none, some, List, [], ◌∷◌, ◌++◌, min, max, or_else,
  if◌then◌else◌,
}
use fpvd.Prelude.Show.{show, is_blank}
use fpvd.Wfb.Cluster.Script.{LinkRadio}

-- The keys of the configuration that the graph reads; `none` is a key that is absent.
pub record GraphConfig : Type 0 where
  pub link : LinkRadio
  pub video_encryption : Option Bool
  pub tap_enabled : Option Bool
  pub tap_port : Option ℕ
  pub dynamic_link : Option Bool
  pub probe : Option Bool
  pub mavlink_peer : Option String

pub record ServiceSpec : Type 0 where
  pub name : String
  pub kind : String
  pub argv : List String
  pub parser : Option String
  pub unix_path : Option String

-- The configurations of the Mavlink and tunnel services are constants but for the peer.
pub record GsGraph : Type 0 where
  pub video_rx : ServiceSpec
  pub mavlink_rx : ServiceSpec
  pub mavlink_tx : ServiceSpec
  pub tunnel_rx : ServiceSpec
  pub tunnel_tx : ServiceSpec
  pub mav_rx_sock : String
  pub mav_peer : String
  pub tun_rx_sock : String
  pub local_forwarders : List ServiceSpec
  pub local_injectors : List ServiceSpec
  pub node_scripts : List (String × String)
  pub probe_rx : Option ServiceSpec

abbrev pub key_flag : List String
key_flag = "-K" ∷ "/etc/gs.key" ∷ []

abbrev pub rx_common_tail : ℕ → List String
rx_common_tail lid = "-R" ∷ "2097152" ∷ "-s" ∷ "2097152" ∷ "-l" ∷ "100" ∷ "-i" ∷ show lid ∷ []

unfoldable pub rx_argv :
    List String → List String → ℕ → List String → List String → List String → List String
rx_argv head key lid tail extra cluster_flag =
    "/usr/bin/wfb_rx" ∷ (cluster_flag ++ (head ++ (key ++ (rx_common_tail lid ++ (extra ++ tail)))))

-- What follows the key.
abbrev pub tx_rest : ℕ → ℕ → List String
tx_rest bandwidth lid =
    "-B"
    ∷ show bandwidth
    ∷ "-G"
    ∷ "long"
    ∷ "-S"
    ∷ "1"
    ∷ "-L"
    ∷ "1"
    ∷ "-M"
    ∷ "1"
    ∷ "-k"
    ∷ "1"
    ∷ "-n"
    ∷ "2"
    ∷ "-T"
    ∷ "0"
    ∷ "-F"
    ∷ "0"
    ∷ "-i"
    ∷ show lid
    ∷ "-R"
    ∷ "2097152"
    ∷ "-s"
    ∷ "2097152"
    ∷ "-l"
    ∷ "100"
    ∷ "-C"
    ∷ "0"
    ∷ []

abbrev pub tx_middle : ℕ → String → List String → ℕ → ℕ → List String
tx_middle port unix_path key bandwidth lid =
    "-f" ∷ "data" ∷ "-p" ∷ show port ∷ "-U" ∷ unix_path ∷ (key ++ tx_rest bandwidth lid)

unfoldable pub tx_argv : ℕ → String → List String → ℕ → ℕ → List String → List String → List String
tx_argv port unix_path key bandwidth lid tail cluster_flag =
    "/usr/bin/wfb_tx" ∷ (cluster_flag ++ (tx_middle port unix_path key bandwidth lid ++ tail))

abbrev pub uplink_bw : GraphConfig → ℕ
uplink_bw cfg = min (max (or_else cfg.link.width 20) 10) 20

abbrev pub video_key_flag : GraphConfig → List String
video_key_flag cfg = if or_else cfg.video_encryption true then key_flag else []

abbrev pub tap_flag : GraphConfig → List String
tap_flag cfg =
    if or_else cfg.tap_enabled true then "-D" ∷ show (or_else cfg.tap_port 8110) ∷ [] else []

abbrev pub probe_enabled : GraphConfig → Bool
probe_enabled cfg = or_else cfg.dynamic_link false && or_else cfg.probe false

abbrev pub video_head : List String
video_head = "-p" ∷ "0" ∷ "-c" ∷ "127.0.0.1" ∷ "-u" ∷ "5600" ∷ []

abbrev pub probe_head : List String
probe_head = "-p" ∷ "50" ∷ "-c" ∷ "127.0.0.1" ∷ "-u" ∷ "7000" ∷ []

-- A leg's service. The input of a local leg is its cards; a cluster's leg has a flag before and, to
-- receive, no cards.
abbrev pub rx_leg : String → String → ℕ → String → List String → List String → ServiceSpec
rx_leg name port lid sock tail flag = record {
  name = name;
  kind = "rx";
  argv = rx_argv ("-p" ∷ port ∷ "-U" ∷ sock ∷ []) key_flag lid tail [] flag;
  parser = some "rx";
  unix_path = some sock;
}

abbrev pub tx_leg : String → ℕ → ℕ → ℕ → String → List String → List String → ServiceSpec
tx_leg name port bandwidth lid sock tail flag = record {
  name = name;
  kind = "tx";
  argv = tx_argv port sock key_flag bandwidth lid tail flag;
  parser = some "tx";
  unix_path = some sock;
}

abbrev pub video_leg : GraphConfig → ℕ → List String → List String → ServiceSpec
video_leg cfg lid tail flag = record {
  name = "video_rx";
  kind = "rx";
  argv = rx_argv video_head (video_key_flag cfg) lid tail (tap_flag cfg) flag;
  parser = some "rx";
  unix_path = none;
}

abbrev pub probe_leg : ℕ → List String → List String → ServiceSpec
probe_leg lid tail flag = record {
  name = "probe_rx";
  kind = "rx";
  argv = rx_argv probe_head key_flag lid tail [] flag;
  parser = some "probe";
  unix_path = none;
}

-- `if not mav_peer_url`
abbrev pub peer_of : GraphConfig → Option String
peer_of cfg = elim cfg.mavlink_peer [
  | none ↦ none
  | some peer ↦ if is_blank peer then none else some peer
]

abbrev pub sock : String → (ℕ → String) → ℕ → String
sock prefix suffix i = append prefix (suffix i)

abbrev pub graph_of : GraphConfig → ℕ → List String → (ℕ → String) → String → GsGraph
graph_of cfg lid wlans suffix peer =
    let mr = sock "mavlink-rx-" suffix 0 in
    let mt = sock "mavlink-tx-" suffix 1 in
    let tr = sock "tunnel-rx-" suffix 2 in
    let t = sock "tunnel-tx-" suffix 3 in
    record {
      video_rx = video_leg cfg lid wlans [];
      mavlink_rx = rx_leg "mavlink_rx" "16" lid mr wlans [];
      mavlink_tx = tx_leg "mavlink_tx" 144 (uplink_bw cfg) lid mt wlans [];
      tunnel_rx = rx_leg "tunnel_rx" "32" lid tr wlans [];
      tunnel_tx = tx_leg "tunnel_tx" 160 (uplink_bw cfg) lid t wlans [];
      mav_rx_sock = mr;
      mav_peer = peer;
      tun_rx_sock = tr;
      local_forwarders = [];
      local_injectors = [];
      node_scripts = [];
      probe_rx = if probe_enabled cfg then some (probe_leg lid wlans []) else none;
    }

abbrev pub graph_for : GraphConfig → ℕ → List String → (ℕ → String) → Option String → Option GsGraph
graph_for cfg lid wlans suffix none = none
graph_for cfg lid wlans suffix (some peer) = some (graph_of cfg lid wlans suffix peer)

-- `none` is the ValueError of a missing peer.
unfoldable pub build_graph : GraphConfig → ℕ → List String → (ℕ → String) → Option GsGraph
build_graph cfg lid wlans suffix = graph_for cfg lid wlans suffix (peer_of cfg)
