-- ===== src/Wfb/Graph/Keys.antt =====
-- Which legs are encrypted.
use Prim.Native.String.{String}
use mathlib.Core.List.{append_assoc}
use fpvd.Prelude.{ℕ, ◌≡◌, refl, sym, ap, Bool, Option, none, some, List, [], ◌∷◌, ◌++◌}
use fpvd.Prelude.Float.{Float}
use fpvd.Prelude.Show.{show}
use fpvd.Wfb.Cards.{Card}
use fpvd.Wfb.Cluster.{ClusterPlan, peers_of}
use fpvd.Wfb.Graph.{
  GraphConfig, ServiceSpec, GsGraph, key_flag, rx_common_tail, rx_argv, tx_argv, tx_rest, uplink_bw,
  sock, peer_of, graph_for, build_graph,
}
use fpvd.Wfb.Graph.Remote.{ServerPorts, aggregate, assemble, build_graph_remote}

-- The command takes the ground station's key.
abbrev pub IsKeyed : ServiceSpec → Type 0
IsKeyed spec =
    (before : List String) × ((after : List String) × (spec.argv ≡ before ++ (key_flag ++ after)))

-- The same graphs but for the video leg, with every other leg that carries a stream keyed.
abbrev pub SameButVideo : Option GsGraph → Option GsGraph → Type 0
SameButVideo none none = Unit
SameButVideo none (some h) = ⊥
SameButVideo (some g) none = ⊥
SameButVideo (some g) (some h) =
    (record g { video_rx = h.video_rx } ≡ h)
    × IsKeyed g.mavlink_rx
    × IsKeyed g.mavlink_tx
    × IsKeyed g.tunnel_rx
    × IsKeyed g.tunnel_tx

-- A configuration with another value of `videoEncryption`.
abbrev pub with_encryption : GraphConfig → Option Bool → GraphConfig
with_encryption cfg v = record cfg { video_encryption = v }

rx-IsKeyed :
    (head flag tail extra : List String) (lid : ℕ)
    → (before : List String) × ((after : List String) × (rx_argv head key_flag lid tail extra flag
          ≡ before ++ (key_flag ++ after)))
unfolding rx_argv
rx-IsKeyed head flag tail extra lid =
    let after = rx_common_tail lid ++ (extra ++ tail) in
    (
      "/usr/bin/wfb_rx" ∷ flag ++ head,
      (after, ap (λ l. "/usr/bin/wfb_rx" ∷ l) (sym (append_assoc flag head (key_flag ++ after)))),
    )

tx-IsKeyed :
    (port : ℕ) (path : String) (bandwidth lid : ℕ) (tail flag : List String)
    → (before : List String) × ((after : List String) × (tx_argv port path key_flag bandwidth lid
            tail flag
          ≡ before ++ (key_flag ++ after)))
unfolding tx_argv
tx-IsKeyed port path bandwidth lid tail flag =
    let head = "-f" ∷ "data" ∷ "-p" ∷ show port ∷ "-U" ∷ path ∷ [] in
    let after = tx_rest bandwidth lid ++ tail in
    (
      "/usr/bin/wfb_tx" ∷ flag ++ head,
      (after, ap (λ l. "/usr/bin/wfb_tx" ∷ l) (sym (append_assoc flag head (key_flag ++ after)))),
    )

build_graph-SameButVideo :
    (cfg : GraphConfig) (v w : Option Bool) (lid : ℕ) (wlans : List String) (suffix : ℕ → String)
    (peer : Option String)
    → SameButVideo
        (graph_for (with_encryption cfg v) lid wlans suffix peer)
        (graph_for (with_encryption cfg w) lid wlans suffix peer)
build_graph-SameButVideo cfg v w lid wlans suffix none = tt
build_graph-SameButVideo cfg v w lid wlans suffix (some peer) = (
  refl,
  rx-IsKeyed ("-p" ∷ "16" ∷ "-U" ∷ sock "mavlink-rx-" suffix 0 ∷ []) [] wlans [] lid,
  tx-IsKeyed 144 (sock "mavlink-tx-" suffix 1) (uplink_bw cfg) lid wlans [],
  rx-IsKeyed ("-p" ∷ "32" ∷ "-U" ∷ sock "tunnel-rx-" suffix 2 ∷ []) [] wlans [] lid,
  tx-IsKeyed 160 (sock "tunnel-tx-" suffix 3) (uplink_bw cfg) lid wlans [],
)

module _ {F : Type 0} ⦃fl : Float F⦄ where
  assemble-SameButVideo :
      (cfg : GraphConfig) (v w : Option Bool) (plan : ClusterPlan F) (lid : ℕ) (suffix : ℕ → String)
      (peer : Option String) (ports : Option ServerPorts) (fwd inj : Option (List ServiceSpec))
      (scripts : Option (List (String × String))) (probe : Option (Option ServiceSpec))
      → SameButVideo
          (assemble (with_encryption cfg v) plan lid suffix peer ports fwd inj scripts probe)
          (assemble (with_encryption cfg w) plan lid suffix peer ports fwd inj scripts probe)
  assemble-SameButVideo cfg v w plan lid suffix none _ _ _ _ _ = tt
  assemble-SameButVideo cfg v w plan lid suffix (some _) none _ _ _ _ = tt
  assemble-SameButVideo cfg v w plan lid suffix (some _) (some _) none _ _ _ = tt
  assemble-SameButVideo cfg v w plan lid suffix (some _) (some _) (some _) none _ _ = tt
  assemble-SameButVideo cfg v w plan lid suffix (some _) (some _) (some _) (some _) none _ = tt
  assemble-SameButVideo cfg v w plan lid suffix (some _) (some _) (some _) (some _) (some _) none =
      tt
  assemble-SameButVideo cfg v w plan lid suffix (some peer) (some ports) (some fwd) (some inj)
        (some scripts) (some probe) =
      let tx = λ (port : ℕ) (path : String) (peers : List String).
        tx-IsKeyed port path (uplink_bw cfg) lid peers ("-d" ∷ []) in
      (
        refl,
        rx-IsKeyed ("-p" ∷ "16" ∷ "-U" ∷ sock "mavlink-rx-" suffix 0 ∷ []) (aggregate ports.mavlink)
            [] [] lid,
        tx 144 (sock "mavlink-tx-" suffix 1) (peers_of "mavlink" plan.allocations),
        rx-IsKeyed ("-p" ∷ "32" ∷ "-U" ∷ sock "tunnel-rx-" suffix 2 ∷ []) (aggregate ports.tunnel)
            [] [] lid,
        tx 160 (sock "tunnel-tx-" suffix 3) (peers_of "tunnel" plan.allocations),
      )

  -- For any two values of `videoEncryption`, both builders answer alike: both fail, or both give a graph,
  -- and the two graphs differ at most in the video leg. In a graph, the command of each Mavlink and
  -- tunnel leg has the flag of the ground station's key, whatever the value is.
  pub build_graphs-SameButVideo :
      (cfg : GraphConfig) (v w : Option Bool) (lid : ℕ) (wlans : List String)
      (cards : List (Card F)) (plan : ClusterPlan F) (server : String) (suffix : ℕ → String)
      → SameButVideo
          (build_graph (with_encryption cfg v) lid wlans suffix)
          (build_graph (with_encryption cfg w) lid wlans suffix)
        × SameButVideo
            (build_graph_remote (with_encryption cfg v) lid cards plan server suffix)
            (build_graph_remote (with_encryption cfg w) lid cards plan server suffix)
  unfolding build_graph build_graph_remote
  build_graphs-SameButVideo cfg v w lid wlans cards plan server suffix = (
    build_graph-SameButVideo cfg v w lid wlans suffix (peer_of cfg),
    assemble-SameButVideo cfg v w plan lid suffix _ _ _ _ _ _,
  )
