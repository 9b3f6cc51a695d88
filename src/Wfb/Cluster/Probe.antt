-- ===== src/Wfb/Cluster/Probe.antt =====
-- What the probe adds to a plan.
use Prim.Native.String.{String}
use mathlib.Core.List.{append_assoc, append-nil}
use mathlib.Core.Path.{subst}
use fpvd.Prelude.{
  ℕ, ◌+◌, ◌≡◌, refl, sym, ap, ◌∙◌, true, false, Option, none, some, List, [], ◌∷◌, ◌++◌, All,
}
use fpvd.Wfb.Cards.{Card}
use fpvd.Wfb.Cluster.{
  Allocation, Counters, Nodes, ClusterPlan, service_order, group_cards, sort_nodes, allocate,
  allocate_nodes, allocate_all, plan_with, plan_cluster, rx_only_wlan_ids,
}

module _ {F : Type 0} where
  allocate_all-append :
      (start : ℕ) (counters : Counters) (nodes : Nodes F) (xs ys : List String)
      → (c : Counters) × (allocate_all start counters nodes (xs ++ ys)
          ≡ allocate_all start counters nodes xs ++ allocate_all start c nodes ys)
  unfolding allocate_all
  allocate_all-append start counters nodes [] ys = (counters, refl)
  allocate_all-append start counters nodes (x ∷ xs) ys =
      let r = allocate_nodes start x counters nodes in
      let ih = allocate_all-append start r.1 nodes xs ys in
      (
        ih.0,
        ap (λ l. r.0 ++ l) ih.1
            ∙ sym (
                append_assoc r.0 (allocate_all start r.1 nodes xs)
                  (allocate_all start ih.0 nodes ys)),
      )

  -- A plan with the probe against the plan without: more of the probe's own at the end.
  abbrev pub OnlyAdds : ℕ → Option (ClusterPlan F) → Option (ClusterPlan F) → Type 0
  OnlyAdds base_server none q = q ≡ none
  OnlyAdds base_server (some p) none = ⊥
  OnlyAdds base_server (some p) (some q) =
      (q.nodes ≡ p.nodes)
      × (q.rx_only ≡ p.rx_only)
      × (q.server_port ≡ p.server_port ++ ("probe", base_server + 1 + 1 + 1) ∷ [])
      × ((more : List Allocation) × (q.allocations ≡ p.allocations ++ more)
          × All (λ a. a.service ≡ "probe") more)

  allocate_nodes-service :
      (start : ℕ) (s : String) (counters : Counters) (nodes : Nodes F)
      → All (λ a. a.service ≡ s) (allocate_nodes start s counters nodes).0
  unfolding allocate_nodes
  allocate_nodes-service start s counters [] = tt
  allocate_nodes-service start s counters (e ∷ nodes) =
      (refl, allocate_nodes-service start s (allocate start s counters e).1 nodes)

  one_service :
      (start : ℕ) (s : String) (counters : Counters) (nodes : Nodes F)
      → All (λ a. a.service ≡ s) (allocate_all start counters nodes (s ∷ []))
  unfolding allocate_all
  one_service start s counters nodes =
      let l = (allocate_nodes start s counters nodes).0 in
      subst (All (λ a. a.service ≡ s)) (sym (append-nil l))
        (allocate_nodes-service start s counters nodes)

  plan_with-OnlyAdds :
      (cards : List (Card F)) (base_server base_node : ℕ) (o : Option (List ℕ))
      → OnlyAdds base_server
          (plan_with cards base_server base_node false o)
          (plan_with cards base_server base_node true o)
  plan_with-OnlyAdds cards base_server base_node none = refl
  plan_with-OnlyAdds cards base_server base_node (some ids) =
      let nodes = sort_nodes (group_cards cards []) in
      let a = allocate_all-append base_node [] nodes (service_order false) ("probe" ∷ []) in
      let more = allocate_all base_node a.0 nodes ("probe" ∷ []) in
      (refl, refl, refl, (more, a.1, one_service base_node "probe" a.0 nodes))

  -- With the probe, a plan has the nodes, the ports and the receive-only cards of the plan without it,
  -- and after them the probe's: a toggle of the probe never moves a port of the other services.
  pub plan_cluster-OnlyAdds :
      (inet_aton : String → Option ℕ) (cards : List (Card F)) (base_server base_node : ℕ)
      → OnlyAdds base_server
          (plan_cluster inet_aton cards base_server base_node false)
          (plan_cluster inet_aton cards base_server base_node true)
  unfolding plan_cluster
  plan_cluster-OnlyAdds inet_aton cards base_server base_node =
      plan_with-OnlyAdds cards base_server base_node
        (rx_only_wlan_ids inet_aton (group_cards cards []))
