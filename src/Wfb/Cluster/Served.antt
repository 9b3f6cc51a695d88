-- ===== src/Wfb/Cluster/Served.antt =====
-- Every node of a plan has a port for each service that sends.
use Prim.Native.String.{String}
use text.Mathlib.Text.{◌==◌ as str_eq}
use text.Mathlib.TextEquality.{eq_iff}
use mathlib.Core.Path.{subst}
use fpvd.Prelude.{
  ℕ, ◌≡◌, refl, Bool, true, Option, none, some, List, [], ◌∷◌, ◌++◌, All, is_some, arith,
  if◌then◌else◌, if_ind,
}
use fpvd.Prelude.Dict.{get_by}
use fpvd.Prelude.Show.{str_le}
use fpvd.Wfb.Cards.{Card}
use fpvd.Wfb.Cluster.{
  ClusterPlan, Allocation, Counters, Nodes, service_order, injector_base, number_services,
  group_cards, insert_node, sort_nodes, allocate, allocate_nodes, allocate_all, plan_with,
  plan_cluster, rx_only_wlan_ids,
}
use fpvd.Wfb.Cluster.Script.{same_pair}

-- The plan has a port for the service on the node.
abbrev pub Serves : List Allocation → String → String → Type 0
Serves l node service = is_some (get_by same_pair (node, service) (injector_base l)) ≡ true

-- The services that send.
abbrev pub ServesAll : List Allocation → String → Type 0
ServesAll l node = Serves l node "mavlink" × Serves l node "tunnel"

Serves-left :
    (l m : List Allocation) (node service : String)
    → Serves l node service
    → Serves (l ++ m) node service
unfolding get_by
Serves-left [] m node service h = ground arith
Serves-left (a ∷ l) m node service h = ground (arith, Serves-left l m node service)

Serves-right :
    (l m : List Allocation) (node service : String)
    → Serves m node service
    → Serves (l ++ m) node service
unfolding get_by
Serves-right [] m node service h = h
Serves-right (a ∷ l) m node service h = ground (arith, Serves-right l m node service h)

module _ {F : Type 0} where
  All-cons :
      (a : Allocation) (l : List Allocation) (service : String) (nodes : Nodes F)
      → All (λ e. Serves l e.0 service) nodes
      → All (λ e. Serves (a ∷ l) e.0 service) nodes
  All-cons a l service [] h = tt
  All-cons a l service (e ∷ nodes) h =
      (Serves-right (a ∷ []) l e.0 service h.0, All-cons a l service nodes h.1)

  -- The allocations of four groups of services, in their order.
  All-served :
      (a b c d : List Allocation) (nodes : Nodes F)
      → All (λ e. Serves b e.0 "mavlink") nodes
      → All (λ e. Serves c e.0 "tunnel") nodes
      → All (λ e. ServesAll (a ++ (b ++ (c ++ d))) e.0) nodes
  All-served a b c d [] h k = tt
  All-served a b c d (e ∷ nodes) h k = (
    (
      Serves-right a (b ++ (c ++ d)) e.0 "mavlink" (Serves-left b (c ++ d) e.0 "mavlink" h.0),
      Serves-right a (b ++ (c ++ d)) e.0 "tunnel"
          (Serves-right b (c ++ d) e.0 "tunnel" (Serves-left c d e.0 "tunnel" k.0)),
    ),
    All-served a b c d nodes h.1 k.1,
  )

  allocate_nodes-Serves :
      (start : ℕ) (service : String) (counters : Counters) (nodes : Nodes F)
      → All (λ e. Serves (allocate_nodes start service counters nodes).0 e.0 service) nodes
  unfolding allocate_nodes get_by
  allocate_nodes-Serves start service counters [] = tt
  allocate_nodes-Serves start service counters (e ∷ nodes) =
      let a = allocate start service counters e in
      (
        rw ((eq_iff e.0 e.0).1 refl, (eq_iff service service).1 refl) refl,
        All-cons a.0 (allocate_nodes start service a.1 nodes).0 service nodes
            (allocate_nodes-Serves start service a.1 nodes),
      )

  pub allocate_all-ServesAll :
      (start : ℕ) (counters : Counters) (nodes : Nodes F) (with_probe : Bool)
      → All
          (λ e. ServesAll (allocate_all start counters nodes (service_order with_probe)) e.0)
          nodes
  unfolding allocate_all
  allocate_all-ServesAll start counters nodes with_probe =
      let v = allocate_nodes start "video" counters nodes in
      let m = allocate_nodes start "mavlink" v.1 nodes in
      let t = allocate_nodes start "tunnel" m.1 nodes in
      All-served v.0 m.0 t.0
        (allocate_all start t.1 nodes (if with_probe then "probe" ∷ [] else [])) nodes
        (allocate_nodes-Serves start "mavlink" v.1 nodes)
        (allocate_nodes-Serves start "tunnel" m.1 nodes)

  -- A sort keeps what holds of all.
  All-insert_node :
      (P : String → Type 0) (e : String × List (Card F)) (nodes : Nodes F)
      → All (λ n. P n.0) (insert_node e nodes)
      → All (λ n. P n.0) (e ∷ nodes)
  All-insert_node P e [] h = h
  All-insert_node P e (d ∷ nodes) h =
      if_ind (λ ns. All (λ n. P n.0) ns → All (λ n. P n.0) (e ∷ d ∷ nodes)) (str_le e.0 d.0) _ _
        (λ _ k. k) (λ _ k. let r = All-insert_node P e nodes k.1 in (r.0, (k.0, r.1))) h

  pub All-sort_nodes :
      (P : String → Type 0) (nodes : Nodes F)
      → All (λ n. P n.0) (sort_nodes nodes)
      → All (λ n. P n.0) nodes
  unfolding sort_nodes
  All-sort_nodes P [] h = tt
  All-sort_nodes P (e ∷ nodes) h =
      let r = All-insert_node P e (sort_nodes nodes) h in (r.0, All-sort_nodes P nodes r.1)

  pub All-found :
      (P : String → Type 0) (k : String) (nodes : Nodes F)
      → All (λ n. P n.0) nodes
      → is_some (get_by str_eq k nodes) ≡ true
      → P k
  unfolding get_by
  All-found P k [] h f = ground arith
  All-found P k ((j, v) ∷ nodes) h f =
      if_ind {A = Option (List (Card F))} (λ o. is_some o ≡ true → P k) (str_eq j k) _ _
        (λ e _. subst P ((eq_iff j k).0 e) h.0) (λ _ g. All-found P k nodes h.1 g) f

  -- What the graph looks up in a plan is there.
  abbrev pub Served : ℕ → Bool → Option (ClusterPlan F) → Type 0
  Served base_server with_probe none = Unit
  Served base_server with_probe (some plan) =
      (plan.server_port ≡ number_services base_server (service_order with_probe))
      × All (λ e. ServesAll plan.allocations e.0) (sort_nodes plan.nodes)

  plan_with-Served :
      (cards : List (Card F)) (base_server base_node : ℕ) (with_probe : Bool) (o : Option (List ℕ))
      → Served base_server with_probe (plan_with cards base_server base_node with_probe o)
  plan_with-Served cards base_server base_node with_probe none = tt
  plan_with-Served cards base_server base_node with_probe (some ids) =
      (refl, allocate_all-ServesAll base_node [] (sort_nodes (group_cards cards [])) with_probe)

  pub plan_cluster-Served :
      (inet_aton : String → Option ℕ) (cards : List (Card F)) (base_server base_node : ℕ)
      (with_probe : Bool) (plan : ClusterPlan F)
      → plan_cluster inet_aton cards base_server base_node with_probe ≡ some plan
      → Served base_server with_probe (some plan)
  unfolding plan_cluster
  plan_cluster-Served inet_aton cards base_server base_node with_probe plan e =
      subst (Served base_server with_probe) e (
        plan_with-Served cards base_server base_node with_probe
          (rx_only_wlan_ids inet_aton (group_cards cards [])))
