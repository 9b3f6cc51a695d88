-- ===== src/Wfb/Engine/Balance.antt =====
-- What an incarnation starts, it stops.
use Prim.Native.String.{String}
use mathlib.Core.List.{reverse, Permᴰ}
use mathlib.Core.Path.{subst}
use fpvd.Prelude.{ℕ, ◌+◌, ◌≡◌, refl, ap, ◌∙◌, Bool, true, false, none, some, List, [], ◌∷◌, ◌++◌}
use fpvd.Wfb.Graph.{GsGraph}
use fpvd.Wfb.Engine.{rx_leg_order, tx_leg_order}
use fpvd.Wfb.Engine.Setup.{
  Engine, Effect, close_hub, stop_tunnel, stop_mav, stop_stats, LegStart, Wiring, wired, early,
  late, forwarder_names, injector_names, probe_names, leg_names, undo_wiring, extra_rx_names,
  child_stops, start_sessions, published, start_legs, stop_children, setup, teardown, bring_up,
}
use fpvd.Wfb.Engine.Stops.{
  stopped, stopped-append, shuffle, start_legs-all, start_legs-kept, came_up, stopper, refuser,
  stopped_all, stopped-children, stopped-teardown, quiet-append,
}

-- An engine that has nothing: between incarnations.
abbrev pub idle : ℕ → List String → List String → List Effect → Engine
idle next_hub extra_rx extra_tx effects = record {
  children = [];
  extra_rx = extra_rx;
  extra_tx = extra_tx;
  mav_service = false;
  tunnel_service = false;
  stats_server = false;
  tick_task = false;
  hub = none;
  next_hub = next_hub;
  probe_feed = false;
  node_sessions = [];
  nodes_state = [];
  effects = effects;
}

-- It has nothing, and the effects since some are what they are.
abbrev pub IsIdle : Engine → Type 0
IsIdle e = e ≡ idle e.next_hub e.extra_rx e.extra_tx e.effects

-- A setup that answers False stopped the children that it kept, the last first. One that answers True
-- has every leg, and its teardown stops each of them once.
abbrev pub Balanced : List Effect → List String → List String → Engine × Bool → Type 0
Balanced before legs started (e, false) =
    IsIdle e × (stopped e.effects ≡ stopped before ++ reverse started)
Balanced before legs started (e, true) =
    (e.children ≡ legs)
    × (IsIdle (teardown e)
        × ((names : List String) × ((stopped (teardown e).effects ≡ stopped before ++ names)
              × Permᴰ names legs)))

-- Node sessions do not touch the children.
abbrev SameChildren : Engine → Engine → Type 0
SameChildren e f =
    (e.children ≡ f.children)
    × ((e.extra_rx ≡ f.extra_rx) × ((e.extra_tx ≡ f.extra_tx) × (e.effects ≡ f.effects)))

start_sessions-SameChildren :
    (session : String → Bool) (scripts : List (String × String)) (e : Engine)
    → SameChildren (start_sessions session scripts e) e
start_sessions-SameChildren session [] e = (refl, (refl, (refl, refl)))
start_sessions-SameChildren session ((node, script) ∷ scripts) e =
    start_sessions-SameChildren session scripts _

stopped-child_stops :
    (e f : Engine) → SameChildren e f → stopped (child_stops e) ≡ stopped (child_stops f)
stopped-child_stops e f h = rw (h.0, h.1.0, h.1.1.0) refl

-- An engine with the children of a graph, whatever else it has.
children-Balanced :
    (remote : Bool) (g : GsGraph) (before : List Effect) (started : List String) (q f : Engine)
    → SameChildren q f
    → f.children ≡ leg_names remote g
    → f.extra_rx ≡ extra_rx_names remote g
    → f.extra_tx ≡ injector_names remote g
    → f.effects ≡ before
    → Balanced before (leg_names remote g) started (q, true)
unfolding teardown
children-Balanced remote g before started q f h c rx tx ef =
    let t = tx_leg_order in
    let r = rx_leg_order in
    let i = injector_names remote g in
    let w = forwarder_names remote g in
    let p = probe_names g.probe_rx in
    (
      h.0 ∙ c,
      (
        refl,
        (
          (t ++ i) ++ (r ++ (w ++ p)),
          (
            stopped-teardown q
                ∙ ap (λ l. stopped l ++ stopped (child_stops q)) (h.1.1.1 ∙ ef)
                ∙ ap (λ l. stopped before ++ l)
                    (stopped-child_stops q f h ∙ rw (c, rx, tx) (stopped-children t i r w p)),
            shuffle r t w i p,
          ),
        ),
      ),
    )

-- The children that a setup keeps: the legs that came up, and the one whose start answered False.
abbrev pub kept_legs : (String → LegStart) → Bool → GsGraph → List String
kept_legs leg remote g =
    let legs = leg_names remote g in came_up leg legs ++ refuser (stopper leg legs)

undone :
    (before : List Effect) (started : List String)
    → stopped (before ++ stop_children started (reverse started))
      ≡ stopped before ++ reverse started
undone before started =
    stopped-append before (stop_children started (reverse started))
    ∙ ap (λ l. stopped before ++ l) (stopped_all started)

undone_wiring :
    (before : List Effect) (hub : ℕ) (started : List String)
    → stopped (before ++ undo_wiring hub started) ≡ stopped before ++ reverse started
undone_wiring before hub started =
    stopped-append before (undo_wiring hub started)
    ∙ ap (λ l. stopped before ++ l)
        (quiet-append (close_hub hub ∷ stop_stats ∷ stop_tunnel ∷ stop_mav ∷ []) _
            (unfold stopped in refl)
          ∙ stopped_all started)

bring_up-Balanced :
    (n : ℕ) (rx tx : List String) (before : List Effect) (remote : Bool) (g : GsGraph)
    (session : String → Bool) (w : Wiring) (started : List String) (ok : Bool)
    → (ok ≡ true → started ≡ leg_names remote g)
    → (let b = bring_up (idle n rx tx before) remote g session w started ok in
        Balanced before (leg_names remote g) started (record b.0 { next_hub = n + 1 }, b.1))
bring_up-Balanced n rx tx before remote g session w started false k = (refl, undone before started)
bring_up-Balanced n rx tx before remote g session early started true k =
    (refl, undone_wiring before n started)
bring_up-Balanced n rx tx before remote g session late started true k =
    (refl, undone_wiring before n started)
bring_up-Balanced n rx tx before true g session wired started true k =
    let p = record (published (idle n rx tx before) true g started) { stats_server = true } in
    children-Balanced true g before started _ p
      (start_sessions-SameChildren session g.node_scripts p) (k refl) refl refl refl
bring_up-Balanced n rx tx before false g session wired started true k =
    let p = record (published (idle n rx tx before) false g started) { stats_server = true } in
    children-Balanced false g before started _ p (refl, (refl, (refl, refl))) (k refl) refl refl
      refl

-- From an engine that has nothing: a setup that answers False has nothing again, and stopped, the last
-- first, the legs that had come up and the one whose start answered False, but not a child whose
-- start raised; one that answers True has every leg of the graph as its child, and the teardown
-- stops each of them once and leaves nothing. This holds whichever leg refuses or raises, and at
-- whatever point the services fail.
pub setup-Balanced :
    (n : ℕ) (rx tx : List String) (before : List Effect) (remote : Bool) (g : GsGraph)
    (leg : String → LegStart) (w : Wiring) (session : String → Bool)
    → Balanced before
        (leg_names remote g)
        (kept_legs leg remote g)
        (setup (idle n rx tx before) remote (some g) leg w session)
unfolding setup
setup-Balanced n rx tx before remote g leg w session =
    let legs = start_legs leg (leg_names remote g) in
    let b = bring_up (idle n rx tx before) remote g session w legs.children legs.ok in
    subst (λ l. Balanced before (leg_names remote g) l (record b.0 { next_hub = n + 1 }, b.1))
      (start_legs-kept leg (leg_names remote g))
      (bring_up-Balanced n rx tx before remote g session w legs.children legs.ok
        (start_legs-all leg (leg_names remote g)))
