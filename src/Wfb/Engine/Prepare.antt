-- ===== src/Wfb/Engine/Prepare.antt =====
-- `_setup` up to the graph: the cards, the radio, the plan and the builder. `wlans` is what the resolver
-- of the local interfaces answers, `radio_ok` what the radio's initialisation does, and `server_address`
-- the address that is derived for the first remote card; `none` is an exception.
use Prim.Native.String.{String}
use fpvd.Prelude.{ℕ, ◌≡◌, Bool, true, Option, none, some, List, [], if◌then◌else◌}
use fpvd.Prelude.Float.{Float}
use fpvd.Wfb.Cards.{Card, Link, Parsed, auto, these, parse_cards, has_remote}
use fpvd.Wfb.Cluster.{ClusterPlan, plan_cluster}
use fpvd.Wfb.Graph.{GraphConfig, GsGraph, probe_enabled, peer_of, build_graph}
use fpvd.Wfb.Graph.Remote.{build_graph_remote}
use fpvd.Wfb.Graph.Complete.{Complete, build_graph_remote-Complete}

pub record EngineConfig (F : Type 0) : Type 0 where
  pub cards : Link F
  pub graph : GraphConfig

pub record World : Type 0 where
  pub wlans : Option (List String)
  pub radio_ok : Bool
  pub server_address : Option String
  pub inet_aton : String → Option ℕ
  pub link_id : ℕ
  pub suffix : ℕ → String

module _ {F : Type 0} ⦃fl : Float F⦄ where
  -- An automatic detection finds local cards only.
  abbrev pub cards_of : Parsed F → List (Card F)
  cards_of auto = []
  cards_of (these cards) = cards

  abbrev pub local_graph : EngineConfig F → World → Option (List String) → Option GsGraph
  local_graph cfg w none = none
  local_graph cfg w (some wlans) =
      if w.radio_ok then build_graph cfg.graph w.link_id wlans w.suffix else none

  abbrev pub planned_graph :
      EngineConfig F
      → World
      → List (Card F)
      → Option (ClusterPlan F)
      → Option String
      → Option GsGraph
  planned_graph cfg w cards (some plan) (some server) =
      build_graph_remote cfg.graph w.link_id cards plan server w.suffix
  planned_graph cfg w cards _ _ = none

  abbrev pub remote_graph : EngineConfig F → World → List (Card F) → Option GsGraph
  remote_graph cfg w cards =
      if w.radio_ok
      then planned_graph cfg w cards
          (plan_cluster w.inet_aton cards 10000 11000 (probe_enabled cfg.graph)) w.server_address
      else none

  abbrev pub graph_by : EngineConfig F → World → Option (Parsed F) → Option GsGraph
  graph_by cfg w none = none
  graph_by cfg w (some parsed) =
      if has_remote (cards_of parsed)
      then remote_graph cfg w (cards_of parsed)
      else local_graph cfg w w.wlans

  unfoldable pub prepare : EngineConfig F → World → Option GsGraph
  prepare cfg w = graph_by cfg w (parse_cards cfg.cards)

  -- What the plan for the cards of a configuration is.
  abbrev pub engine_plan : EngineConfig F → World → List (Card F) → Option (ClusterPlan F)
  engine_plan cfg w cards = plan_cluster w.inet_aton cards 10000 11000 (probe_enabled cfg.graph)

  -- With a remote card, the engine gets a graph as soon as the radio comes up, the server's address is
  -- derived, the plan is made and the Mavlink peer is not empty: no lookup of the builder in the plan
  -- fails, with the probe or without. The graph has one script for each remote node.
  pub prepare-Complete :
      (cfg : EngineConfig F) (w : World) (cards : List (Card F)) (plan : ClusterPlan F)
      (server peer : String)
      → parse_cards cfg.cards ≡ some (these cards)
      → has_remote cards ≡ true
      → w.radio_ok ≡ true
      → w.server_address ≡ some server
      → engine_plan cfg w cards ≡ some plan
      → peer_of cfg.graph ≡ some peer
      → Complete plan (prepare cfg w)
  unfolding prepare
  prepare-Complete cfg w cards plan server peer p r ok s q e =
      rw (p, r, ok, q, s)
        (build_graph_remote-Complete w.inet_aton cfg.graph w.link_id cards 10000 11000 server
          w.suffix plan peer e q)
