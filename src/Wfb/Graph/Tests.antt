-- ===== src/Wfb/Graph/Tests.antt =====
-- A graph of two local cards, and the graph of a cluster of a local and a remote card with the probe.
use Prim.Native.String.{String}
use Prim.Native.Nat.{bit_or}
use fpvd.Prelude.{ℕ, ◌≡◌, refl, true, false, Option, none, some, List, [], ◌∷◌}
use fpvd.Prelude.Int.{ℤ}
use fpvd.Prelude.Fixed.{milli}
use fpvd.Prelude.Show.{show}
use fpvd.Wfb.Cards.{Card, off, local_card}
use fpvd.Wfb.Cluster.{
  ClusterPlan, service_order, number_services, group_cards, add_card, sort_nodes, allocate_all,
  plan_cluster, rx_only_of, rx_only_wlan_ids,
}
use fpvd.Wfb.Graph.{GraphConfig, GsGraph, rx_argv, build_graph}
use fpvd.Wfb.Graph.Remote.{build_graph_remote}
use fpvd.Wfb.Graph.Keys.{SameButVideo, with_encryption, build_graphs-SameButVideo}

abbrev cfg : GraphConfig
cfg = record {
  link = record { width = some 40; region = some "US"; channel = some 165 };
  video_encryption = none;
  tap_enabled = some true;
  tap_port = none;
  dynamic_link = some true;
  probe = some true;
  mavlink_peer = some "connect://127.0.0.1:14550";
}

abbrev suffix : ℕ → String
suffix i = show i

abbrev video_of : Option GsGraph → List String
video_of none = []
video_of (some g) = g.video_rx.argv

video_argv :
    video_of (build_graph cfg 7 ("wlan0" ∷ "wlan1" ∷ []) suffix)
    ≡ "/usr/bin/wfb_rx" ∷ "-p" ∷ "0" ∷ "-c" ∷ "127.0.0.1" ∷ "-u" ∷ "5600" ∷ "-K" ∷ "/etc/gs.key"
      ∷ "-R" ∷ "2097152" ∷ "-s" ∷ "2097152" ∷ "-l" ∷ "100" ∷ "-i" ∷ "7" ∷ "-D" ∷ "8110" ∷ "wlan0"
      ∷ "wlan1" ∷ []
unfolding build_graph rx_argv show
video_argv = refl

-- Without a peer there is no graph.
no_peer : build_graph (record cfg { mavlink_peer = some "" }) 7 ("wlan0" ∷ []) suffix ≡ none
unfolding build_graph
no_peer = refl

abbrev remote_card : Card ℤ
remote_card = record (local_card "wlan2") { host = some "10.0.0.2"; txpower_dbm = off }

abbrev cards : List (Card ℤ)
cards = local_card "wlan0" ∷ remote_card ∷ []

abbrev inet_aton : String → Option ℕ
inet_aton host = some 167772162

abbrev plan : ClusterPlan ℤ
plan = record {
  nodes = group_cards cards [];
  server_port = number_services 10000 (service_order true);
  allocations = allocate_all 11000 [] (sort_nodes (group_cards cards [])) (service_order true);
  rx_only = bit_or 2814749800660992 0 ∷ [];
}

planned : plan_cluster inet_aton cards 10000 11000 true ≡ some plan
unfolding plan_cluster rx_only_wlan_ids rx_only_of group_cards add_card
planned = refl

build_graphs-SameButVideo_example :
    SameButVideo
      (build_graph (with_encryption cfg (some true)) 7 ("wlan0" ∷ []) suffix)
      (build_graph (with_encryption cfg (some false)) 7 ("wlan0" ∷ []) suffix)
    × SameButVideo
        (build_graph_remote ⦃fl = milli⦄
          (with_encryption cfg (some true))
          7
          cards
          plan
          "10.0.0.1"
          suffix)
        (build_graph_remote ⦃fl = milli⦄
          (with_encryption cfg (some false))
          7
          cards
          plan
          "10.0.0.1"
          suffix)
build_graphs-SameButVideo_example =
    build_graphs-SameButVideo ⦃fl = milli⦄ cfg (some true) (some false) 7 ("wlan0" ∷ []) cards plan
      "10.0.0.1" suffix
