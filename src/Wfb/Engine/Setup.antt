-- ===== src/Wfb/Engine/Setup.antt =====
-- `_setup` and `_teardown`: what an incarnation starts and stops. What the operating system and the
-- services do is an argument: the start of each leg, of the services, and of each node's session.
-- The reset of the engine's fault, the reaping of stale processes and the selector are left out, and the
-- parsers that are wired are those of TxSockets.
use Prim.Native.String.{String}
use text.Mathlib.Text.{◌==◌ as str_eq}
use fpvd.Prelude.{
  ℕ, ◌+◌, Bool, true, false, Option, none, some, List, [], ◌∷◌, ◌++◌, map, any, is_some,
  if◌then◌else◌,
}
use fpvd.Prelude.Dict.{put_by}
use mathlib.Core.List.{reverse}
use fpvd.Wfb.Graph.{ServiceSpec, GsGraph}
use fpvd.Wfb.Engine.{rx_leg_order, tx_leg_order}

-- A constructor that raises, a start that raises, a start that answers False, and one that answers True.
pub data LegStart : Type 0 where
  construct_raised start_raised refused up : LegStart

-- The children that are kept, in the order of their starts, those that were constructed but are lost
-- because their start raised, and whether all came up.
pub record Legs : Type 0 where
  pub children : List String
  pub lost : List String
  pub ok : Bool

-- The services: all start, or one raises before the engine publishes what it built, or after.
pub data Wiring : Type 0 where
  wired early late : Wiring

pub record NodeView : Type 0 where
  pub alive : Bool
  pub restarts : ℕ

-- What is done to the outside.
pub data Effect : Type 0 where
  stop_child stop_session : String → Effect
  close_hub : ℕ → Effect
  stop_tunnel stop_mav stop_stats cancel_tick : Effect

-- The state that an incarnation has. A hub is a number.
pub record Engine : Type 0 where
  pub children : List String
  pub extra_rx : List String
  pub extra_tx : List String
  pub mav_service : Bool
  pub tunnel_service : Bool
  pub stats_server : Bool
  pub tick_task : Bool
  pub hub : Option ℕ
  pub next_hub : ℕ
  pub probe_feed : Bool
  pub node_sessions : List String
  pub nodes_state : List (String × NodeView)
  pub effects : List Effect

abbrev pub forwarder_names : Bool → GsGraph → List String
forwarder_names remote g = if remote then map (λ s. s.name) g.local_forwarders else []

abbrev pub injector_names : Bool → GsGraph → List String
injector_names remote g = if remote then map (λ s. s.name) g.local_injectors else []

abbrev pub probe_names : Option ServiceSpec → List String
probe_names none = []
probe_names (some spec) = "probe_rx" ∷ []

-- `leg_specs`, by their names.
abbrev pub leg_names : Bool → GsGraph → List String
leg_names remote g =
    rx_leg_order
    ++ (tx_leg_order
        ++ (forwarder_names remote g ++ (injector_names remote g ++ probe_names g.probe_rx)))

abbrev pub extra_rx_names : Bool → GsGraph → List String
extra_rx_names remote g = forwarder_names remote g ++ probe_names g.probe_rx

abbrev pub after_leg : LegStart → String → Legs → Legs
after_leg construct_raised name rest = record { children = []; lost = []; ok = false }
after_leg start_raised name rest = record { children = []; lost = name ∷ []; ok = false }
after_leg refused name rest = record { children = name ∷ []; lost = []; ok = false }
after_leg up name rest = record rest { children = name ∷ rest.children }

-- The legs are started in order: the first that does not come up ends it. An exception of `start` leaves
-- `child` None, as one of the constructor does.
unfoldable pub start_legs : (String → LegStart) → List String → Legs
start_legs o [] = record { children = []; lost = []; ok = true }
start_legs o (name ∷ names) = after_leg (o name) name (start_legs o names)

abbrev pub do_all : Engine → List Effect → Engine
do_all e effects = record e { effects = e.effects ++ effects }

-- `_stop_children`: a name that is no child is skipped.
unfoldable pub stop_children : List String → List String → List Effect
stop_children children [] = []
stop_children children (name ∷ order) =
    let rest = stop_children children order in
    if any (λ c. str_eq c name) children then stop_child name ∷ rest else rest

-- The state after the services failed.
abbrev pub unwired : Engine → Engine
unwired e = record e {
  children = [];
  mav_service = false;
  tunnel_service = false;
  hub = none;
  probe_feed = false;
}

abbrev pub undo_wiring : ℕ → List String → List Effect
undo_wiring hub started =
    close_hub hub ∷ stop_stats ∷ stop_tunnel ∷ stop_mav ∷ stop_children started (reverse started)

abbrev pub start_sessions : (String → Bool) → List (String × String) → Engine → Engine
start_sessions session [] e = e
start_sessions session ((node, script) ∷ scripts) e = start_sessions session scripts (record e {
  node_sessions = e.node_sessions ++ node ∷ [];
  nodes_state = put_by str_eq node (record { alive = session node; restarts = 0 }) e.nodes_state;
})

abbrev pub published : Engine → Bool → GsGraph → List String → Engine
published e remote g started = record e {
  children = started;
  extra_rx = extra_rx_names remote g;
  extra_tx = injector_names remote g;
  mav_service = true;
  tunnel_service = true;
  hub = some e.next_hub;
  probe_feed = is_some g.probe_rx;
}

abbrev pub wire : Engine → Bool → GsGraph → (String → Bool) → List String → Wiring → Engine × Bool
wire e remote g session started wired =
    let p = record (published e remote g started) { stats_server = true } in
    let q = if remote then start_sessions session g.node_scripts p else p in
    (record q { tick_task = true }, true)
wire e remote g session started early = (do_all (unwired e) (undo_wiring e.next_hub started), false)
wire e remote g session started late =
    (do_all (unwired (published e remote g started)) (undo_wiring e.next_hub started), false)

abbrev pub bring_up :
    Engine → Bool → GsGraph → (String → Bool) → Wiring → List String → Bool → Engine × Bool
bring_up e remote g session w started false =
    (do_all e (stop_children started (reverse started)), false)
bring_up e remote g session w started true = wire e remote g session started w

-- `_setup` from the graph on; `none` is a failure before it, which starts nothing.
unfoldable pub setup :
    Engine → Bool → Option GsGraph → (String → LegStart) → Wiring → (String → Bool) → Engine × Bool
setup e remote none leg w session = (e, false)
setup e remote (some g) leg w session =
    let legs = start_legs leg (leg_names remote g) in
    let r = bring_up e remote g session w legs.children legs.ok in
    (record r.0 { next_hub = e.next_hub + 1 }, r.1)

abbrev pub when_on : Bool → Effect → List Effect
when_on true x = x ∷ []
when_on false x = []

abbrev pub close_effect : Option ℕ → List Effect
close_effect none = []
close_effect (some hub) = close_hub hub ∷ []

abbrev pub child_stops : Engine → List Effect
child_stops e =
    stop_children e.children (tx_leg_order ++ e.extra_tx)
    ++ stop_children e.children (rx_leg_order ++ e.extra_rx)

-- `_teardown`
unfoldable pub teardown : Engine → Engine
teardown e = record e {
  children = [];
  extra_rx = [];
  extra_tx = [];
  mav_service = false;
  tunnel_service = false;
  stats_server = false;
  tick_task = false;
  hub = none;
  probe_feed = false;
  node_sessions = [];
  nodes_state = [];
  effects =
      e.effects
      ++ (when_on e.tunnel_service stop_tunnel
          ++ (map stop_session e.node_sessions
              ++ (close_effect e.hub
                  ++ (when_on e.tick_task cancel_tick
                      ++ (when_on e.stats_server stop_stats
                          ++ (when_on e.mav_service stop_mav ++ child_stops e))))));
}
