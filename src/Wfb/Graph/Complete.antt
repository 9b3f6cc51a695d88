-- ===== src/Wfb/Graph/Complete.antt =====
-- Every plan has all that the graph looks up in it.
use Prim.Native.String.{String}
use text.Mathlib.Text.{◌==◌ as str_eq}
use fpvd.Prelude.{
  ℕ, ◌≡◌, refl, ap, ◌∙◌, Bool, true, false, Option, none, some, List, [], ◌∷◌, map, All, is_some,
  Bool-cases, inl, inr, arith, if◌then◌else◌,
}
use fpvd.Prelude.Dict.{get_by}
use fpvd.Prelude.Float.{Float}
use fpvd.Prelude.Show.{join_with}
use fpvd.Wfb.Cards.{Card, local_ifaces}
use fpvd.Wfb.Cluster.{
  ClusterPlan, Allocation, Nodes, streams_for, service_order, local_node, injector_base,
  number_services, sort_nodes, plan_cluster,
}
use fpvd.Wfb.Cluster.Served.{ServesAll, plan_cluster-Served, All-sort_nodes, All-found}
use fpvd.Wfb.Cluster.Script.{LinkRadio, same_pair, service_lines, render_node_script}
use fpvd.Wfb.Graph.{GraphConfig, ServiceSpec, GsGraph, peer_of, probe_enabled}
use fpvd.Wfb.Graph.Remote.{
  ServerPorts, server_ports, forwarders, injectors, node_scripts, has_local, probe_at, assemble,
  build_graph_remote,
}

some_of {ℓ} : {A : Type ℓ} (o : Option A) → is_some o ≡ true → (a : A) × (o ≡ some a)
some_of none h = ground arith
some_of (some a) h = (a, refl)

service_lines-total :
    (node server : String) (link_id base : ℕ) (wlans : String) (l : List Allocation)
    (with_probe : Bool)
    → ServesAll l node
    → (lines : List String) × (service_lines node server link_id wlans
          (number_services base (service_order with_probe))
          (injector_base l)
          (streams_for with_probe)
        ≡ some lines)
unfolding service_lines get_by
service_lines-total node server link_id base wlans l true h =
    let m = some_of (get_by same_pair (node, "mavlink") (injector_base l)) h.0 in
    let t = some_of (get_by same_pair (node, "tunnel") (injector_base l)) h.1 in
    rw (m.1, t.1) (_, refl)
service_lines-total node server link_id base wlans l false h =
    let m = some_of (get_by same_pair (node, "mavlink") (injector_base l)) h.0 in
    let t = some_of (get_by same_pair (node, "tunnel") (injector_base l)) h.1 in
    rw (m.1, t.1) (_, refl)

injectors-total :
    (l : List Allocation) (ifaces : List String) (with_probe : Bool)
    → ServesAll l local_node
    → (specs : List ServiceSpec) × (injectors (injector_base l) ifaces (streams_for with_probe)
        ≡ some specs)
unfolding injectors get_by
injectors-total l ifaces true h =
    let m = some_of (get_by same_pair (local_node, "mavlink") (injector_base l)) h.0 in
    let t = some_of (get_by same_pair (local_node, "tunnel") (injector_base l)) h.1 in
    rw (m.1, t.1) (_, refl)
injectors-total l ifaces false h =
    let m = some_of (get_by same_pair (local_node, "mavlink") (injector_base l)) h.0 in
    let t = some_of (get_by same_pair (local_node, "tunnel") (injector_base l)) h.1 in
    rw (m.1, t.1) (_, refl)

forwarders-total :
    (base lid : ℕ) (ifaces : List String) (with_probe : Bool)
    → (specs : List ServiceSpec) × (forwarders
          (number_services base (service_order with_probe))
          lid
          ifaces
          (streams_for with_probe)
        ≡ some specs)
unfolding forwarders get_by
forwarders-total base lid ifaces true = (_, refl)
forwarders-total base lid ifaces false = (_, refl)

server_ports-total :
    (base : ℕ) (with_probe : Bool)
    → (ports : ServerPorts) × (server_ports (number_services base (service_order with_probe))
        ≡ some ports)
unfolding get_by
server_ports-total base true = (_, refl)
server_ports-total base false = (_, refl)

probe-total :
    (base lid : ℕ) (with_probe : Bool)
    → (probe : Option ServiceSpec) × ((if with_probe
          then probe_at lid
              (get_by str_eq "probe" (number_services base (service_order with_probe)))
          else some none)
        ≡ some probe)
unfolding get_by
probe-total base lid true = (_, refl)
probe-total base lid false = (_, refl)

module _ {F : Type 0} where
  -- The nodes that are not the local one, in order.
  abbrev pub remote_nodes : Nodes F → List String
  remote_nodes [] = []
  remote_nodes ((node, cards) ∷ nodes) =
      let rest = remote_nodes nodes in if str_eq node local_node then rest else node ∷ rest

-- What a builder adds when the local node has cards.
if_local :
    (b : Bool) (o : Option (List ServiceSpec))
    → (b ≡ true → (specs : List ServiceSpec) × (o ≡ some specs))
    → (specs : List ServiceSpec) × ((if b then o else some []) ≡ some specs)
if_local true o h = h refl
if_local false o h = ([], refl)

module _ {F : Type 0} ⦃fl : Float F⦄ where
  render-total :
      (node : String) (cards : List (Card F)) (plan : ClusterPlan F) (link : LinkRadio)
      (lid base : ℕ) (server : String) (with_probe : Bool)
      → plan.server_port ≡ number_services base (service_order with_probe)
      → ServesAll plan.allocations node
      → (script : String) × (render_node_script node cards plan link lid server true
            (streams_for with_probe)
          ≡ some script)
  unfolding render_node_script
  render-total node cards plan link lid base server with_probe e h =
      let wlans = join_with " " (map (λ c. c.iface) cards) in
      let r = service_lines-total node server lid base wlans plan.allocations with_probe h in
      rw (e, r.1) (_, refl)

  node_scripts-total :
      (plan : ClusterPlan F) (link : LinkRadio) (lid base : ℕ) (server : String) (with_probe : Bool)
      (nodes : Nodes F)
      → plan.server_port ≡ number_services base (service_order with_probe)
      → All (λ e. ServesAll plan.allocations e.0) nodes
      → (scripts : List (String × String)) × ((node_scripts plan link lid server
              (streams_for with_probe)
              nodes
            ≡ some scripts)
          × (map (λ s. s.0) scripts ≡ remote_nodes nodes))
  unfolding node_scripts
  node_scripts-total plan link lid base server with_probe [] e h = ([], (refl, refl))
  node_scripts-total plan link lid base server with_probe ((node, cards) ∷ nodes) e h =
      let r = node_scripts-total plan link lid base server with_probe nodes e h.1 in
      let s = render-total node cards plan link lid base server with_probe e h.0 in
      elim (Bool-cases (str_eq node local_node)) [
        | inl b ↦ rw b r
        | inr b ↦ rw (b, s.1, r.1.0) (_, (refl, ap (λ l. node ∷ l) r.1.1))
      ]

  has_local_some : (o : Option (List (Card F))) → has_local o ≡ true → is_some o ≡ true
  has_local_some none h = ground arith
  has_local_some (some cards) h = refl

  local-ServesAll :
      (plan : ClusterPlan F)
      → All (λ e. ServesAll plan.allocations e.0) (sort_nodes plan.nodes)
      → has_local (get_by str_eq local_node plan.nodes) ≡ true
      → ServesAll plan.allocations local_node
  local-ServesAll plan h b =
      All-found (ServesAll plan.allocations) local_node plan.nodes
        (All-sort_nodes (ServesAll plan.allocations) plan.nodes h)
        (has_local_some (get_by str_eq local_node plan.nodes) b)

  -- A graph with one script for each remote node of the plan.
  abbrev pub Complete : ClusterPlan F → Option GsGraph → Type 0
  Complete plan none = ⊥
  Complete plan (some g) = map (λ s. s.0) g.node_scripts ≡ remote_nodes (sort_nodes plan.nodes)

  assemble-Complete :
      (cfg : GraphConfig) (plan : ClusterPlan F) (lid : ℕ) (suffix : ℕ → String) {o : Option String}
      {ports : Option ServerPorts} {fwd inj : Option (List ServiceSpec)}
      {scripts : Option (List (String × String))} {probe : Option (Option ServiceSpec)}
      {peer : String} {p : ServerPorts} {f i : List ServiceSpec} {s : List (String × String)}
      {r : Option ServiceSpec}
      → o ≡ some peer
      → ports ≡ some p
      → fwd ≡ some f
      → inj ≡ some i
      → scripts ≡ some s
      → probe ≡ some r
      → map (λ n. n.0) s ≡ remote_nodes (sort_nodes plan.nodes)
      → Complete plan (assemble cfg plan lid suffix o ports fwd inj scripts probe)
  assemble-Complete cfg plan lid suffix eo ep ef ei es er h = rw (eo, ep, ef, ei, es, er) h

  -- For a plan that is made with the probe as the configuration has it, and a Mavlink peer that is not
  -- empty, the builder never fails. The graph that it gives has one script for each remote node of the
  -- plan, in the order of the nodes.
  pub build_graph_remote-Complete :
      (inet_aton : String → Option ℕ) (cfg : GraphConfig) (lid : ℕ) (cards : List (Card F))
      (base_server base_node : ℕ) (server : String) (suffix : ℕ → String) (plan : ClusterPlan F)
      (peer : String)
      → peer_of cfg ≡ some peer
      → plan_cluster inet_aton cards base_server base_node (probe_enabled cfg) ≡ some plan
      → Complete plan (build_graph_remote cfg lid cards plan server suffix)
  unfolding build_graph_remote
  build_graph_remote-Complete inet_aton cfg lid cards base_server base_node server suffix plan peer
        e f =
      let p = probe_enabled cfg in
      let s = plan_cluster-Served inet_aton cards base_server base_node p plan f in
      let here = has_local (get_by str_eq local_node plan.nodes) in
      let ifaces = local_ifaces cards in
      let ports = server_ports-total base_server p in
      let fwd =
        if_local here (forwarders plan.server_port lid ifaces (streams_for p))
          (λ _. rw s.0 (forwarders-total base_server lid ifaces p)) in
      let inj =
        if_local here (injectors (injector_base plan.allocations) ifaces (streams_for p))
          (λ b. injectors-total plan.allocations ifaces p (local-ServesAll plan s.1 b)) in
      let scripts =
        node_scripts-total plan cfg.link lid base_server server p (sort_nodes plan.nodes) s.0 s.1 in
      let probe = probe-total base_server lid p in
      assemble-Complete cfg plan lid suffix e (ap server_ports s.0 ∙ ports.1) fwd.1 inj.1
        scripts.1.0
        (ap (λ ps. if p then probe_at lid (get_by str_eq "probe" ps) else some none) s.0 ∙ probe.1)
        scripts.1.1
