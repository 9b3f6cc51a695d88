-- ===== src/Wfb/Cluster/Ports.antt =====
-- The injector ports of a node, over all its services.
use Prim.Native.String.{String}
use text.Mathlib.Text.{◌==◌ as str_eq}
use text.Mathlib.TextEquality.{eq_iff}
use mathlib.Core.List.{append_assoc}
use native.Mathlib.Nat.{add-mul}
use fpvd.Prelude.{
  ℕ, zero, suc, ◌+◌, ◌*◌, ◌≡◌, refl, sym, ap, ◌∙◌, Bool-cases, inl, inr, Option, none, some, List,
  [], ◌∷◌, ◌++◌, arith, or_else, if◌then◌else◌, length, Bool, length-append, if_ind,
}
use fpvd.Prelude.Dict.{get_by, put_by, get_by-put_by}
use fpvd.Prelude.Show.{str_le}
use fpvd.Wfb.Cards.{Card}
use fpvd.Wfb.Cluster.{
  Allocation, Counters, Nodes, ClusterPlan, count_from, service_order, node_key, add_card,
  group_cards, insert_node, sort_nodes, allocate_nodes, allocate_all, plan_with, plan_cluster,
  rx_only_wlan_ids,
}

-- The ports of a node, in the order in which they are allocated.
unfoldable pub ports_of : String → List Allocation → List ℕ
ports_of k [] = []
ports_of k (a ∷ allocations) =
    let rest = ports_of k allocations in if str_eq a.node k then a.ports ++ rest else rest

ports_of-append :
    (k : String) (xs ys : List Allocation) → ports_of k (xs ++ ys) ≡ ports_of k xs ++ ports_of k ys
unfolding ports_of
ports_of-append k [] ys = refl
ports_of-append k (a ∷ xs) ys = elim (Bool-cases (str_eq a.node k)) [
  | inl e ↦
      rw (e, ports_of-append k xs ys) (sym (append_assoc a.ports (ports_of k xs) (ports_of k ys)))
  | inr e ↦ rw e (ports_of-append k xs ys)
]

count_from_eq : {a b n m : ℕ} → a ≡ b → n ≡ m → count_from a n ≡ count_from b m
count_from_eq e f = rw (e, f) refl

add_regroup : (a n : ℕ) → a + suc n ≡ a + 1 + n
add_regroup a n = omega arith

suc_add : (n m : ℕ) → suc (n + m) ≡ suc n + m
suc_add n m = omega arith

count_from-append : (a n m : ℕ) → count_from a n ++ count_from (a + n) m ≡ count_from a (n + m)
count_from-append a zero m = count_from_eq (omega arith) (omega arith)
count_from-append a (suc n) m =
    ap (λ l. a ∷ l)
      (ap (λ b. count_from (a + 1) n ++ count_from b m) (add_regroup a n)
        ∙ count_from-append (a + 1) n m)
    ∙ ap (count_from a) (suc_add n m)

plus_none : (n : ℕ) → 0 + n ≡ n
plus_none n = omega arith

none_mul : (m : ℕ) → 0 ≡ 0 * m
none_mul m = omega arith

grow_mul : (n m : ℕ) → m + n * m ≡ suc n * m
grow_mul n m = omega (arith, add-mul 1 n m)

-- The next port of a node.
abbrev next : ℕ → String → Counters → ℕ
next start k counters = or_else (get_by str_eq k counters) start

-- Ports that go on from the node's counter, which moves past them.
abbrev Continues : ℕ → String → Counters → ℕ → List Allocation × Counters → Type 0
Continues start k counters n r =
    (ports_of k r.0 ≡ count_from (next start k counters) n)
    × (next start k r.1 ≡ next start k counters + n)

next-put_by :
    (start : ℕ) (k node : String) (w : ℕ) (counters : Counters)
    → next start k (put_by str_eq node w counters)
      ≡ (if str_eq node k then w else next start k counters)
next-put_by start k node w counters = elim (Bool-cases (str_eq node k)) [
  | inl e ↦ rw (get_by-put_by str_eq eq_iff k node w counters, e) refl
  | inr e ↦ rw (get_by-put_by str_eq eq_iff k node w counters, e) refl
]

module _ {F : Type 0} where
  -- The cards of a node.
  unfoldable pub load : String → Nodes F → ℕ
  load k [] = 0
  load k ((node, cards) ∷ nodes) =
      let rest = load k nodes in if str_eq node k then length cards + rest else rest

  allocate_nodes-Continues :
      (start : ℕ) (k service : String) (counters : Counters) (nodes : Nodes F)
      → Continues start k counters (load k nodes) (allocate_nodes start service counters nodes)
  unfolding allocate_nodes load ports_of
  allocate_nodes-Continues start k service counters [] = (refl, omega arith)
  allocate_nodes-Continues start k service counters ((node, cards) ∷ nodes) =
      let v = next start node counters in
      let n = length cards in
      let m = load k nodes in
      let c = put_by str_eq node (v + n) counters in
      let r = allocate_nodes-Continues start k service c nodes in
      let g = next-put_by start k node (v + n) counters in
      elim (Bool-cases (str_eq node k)) [
        | inl e ↦
            let same = ap (λ x. next start x counters) ((eq_iff node k).0 e) in
            let moved = g ∙ ap (λ b. if b then v + n else next start k counters) e in
            (
              rw e (
                  ap (λ l. count_from v n ++ l) (r.0 ∙ ap (λ a. count_from a m) moved)
                  ∙ count_from-append v n m
                  ∙ ap (λ a. count_from a (n + m)) same),
              rw e (omega (arith, r.1, moved, same)),
            )
        | inr e ↦
            let kept = g ∙ ap (λ b. if b then v + n else next start k counters) e in
            (rw e (r.0 ∙ ap (λ a. count_from a m) kept), rw e (omega (arith, r.1, kept)))
      ]

  allocate_all-ports :
      (start : ℕ) (k : String) (counters : Counters) (nodes : Nodes F) (services : List String)
      → ports_of k (allocate_all start counters nodes services)
        ≡ count_from (next start k counters) (length services * load k nodes)
  unfolding allocate_all ports_of
  allocate_all-ports start k counters nodes [] =
      ap (count_from (next start k counters)) (none_mul (load k nodes))
  allocate_all-ports start k counters nodes (s ∷ services) =
      let r = allocate_nodes start s counters nodes in
      let c = allocate_nodes-Continues start k s counters nodes in
      let m = load k nodes in
      ports_of-append k r.0 (allocate_all start r.1 nodes services)
      ∙ ap (λ l. l ++ ports_of k (allocate_all start r.1 nodes services)) c.0
      ∙ ap (λ l. count_from (next start k counters) m ++ l)
          (allocate_all-ports start k r.1 nodes services
            ∙ ap (λ a. count_from a (length services * m)) c.1)
      ∙ count_from-append (next start k counters) m (length services * m)
      ∙ count_from_eq refl (grow_mul (length services) m)

  load-insert_node :
      (k : String) (e : String × List (Card F)) (nodes : Nodes F)
      → load k (insert_node e nodes) ≡ load k (e ∷ nodes)
  unfolding load
  load-insert_node k e [] = refl
  load-insert_node k e (d ∷ nodes) =
      if_ind (λ ns. load k ns ≡ load k (e ∷ d ∷ nodes)) (str_le e.0 d.0) _ _ (λ _. refl)
        (λ _. ground (arith, load-insert_node k e nodes))

  load-sort_nodes : (k : String) (nodes : Nodes F) → load k (sort_nodes nodes) ≡ load k nodes
  unfolding load sort_nodes
  load-sort_nodes k [] = refl
  load-sort_nodes k (e ∷ nodes) =
      load-insert_node k e (sort_nodes nodes) ∙ ground (arith, load-sort_nodes k nodes)

  -- How many of the cards belong to a node.
  unfoldable pub cards_of : String → List (Card F) → ℕ
  cards_of k [] = 0
  cards_of k (card ∷ cards) =
      let rest = cards_of k cards in if str_eq (node_key card) k then suc rest else rest

  load-add_card :
      (k node : String) (card : Card F) (nodes : Nodes F)
      → load k (add_card node card nodes) ≡ load k nodes + (if str_eq node k then 1 else 0)
  unfolding load add_card
  load-add_card k node card [] = ground arith
  load-add_card k node card ((m, cards) ∷ nodes) = elim (Bool-cases (str_eq m node)) [
    | inl e ↦ rw (e, (eq_iff m node).0 e) (ground (arith, length-append cards (card ∷ [])))
    | inr e ↦ rw e (ground (arith, load-add_card k node card nodes))
  ]

  load-group_cards :
      (k : String) (cards : List (Card F)) (nodes : Nodes F)
      → load k (group_cards cards nodes) ≡ load k nodes + cards_of k cards
  unfolding group_cards cards_of
  load-group_cards k [] nodes = omega arith
  load-group_cards k (card ∷ cards) nodes = ground (
    arith,
    load-group_cards k cards (add_card (node_key card) card nodes),
    load-add_card k (node_key card) card nodes,
  )

  planned-ports :
      (k : String) (cards : List (Card F)) (start : ℕ) (services : List String)
      → ports_of k (allocate_all start [] (sort_nodes (group_cards cards [])) services)
        ≡ count_from start (length services * cards_of k cards)
  unfolding get_by load
  planned-ports k cards start services =
      let nodes = group_cards cards [] in
      allocate_all-ports start k [] (sort_nodes nodes) services
      ∙ ap (λ n. count_from start (length services * n))
          (load-sort_nodes k nodes ∙ load-group_cards k cards [] ∙ plus_none (cards_of k cards))

  -- What a plan is read by.
  abbrev pub PlanPorts : List (Card F) → ℕ → List String → String → Option (ClusterPlan F) → Type 0
  PlanPorts cards base_node services k none = Unit
  PlanPorts cards base_node services k (some plan) =
      ports_of k plan.allocations ≡ count_from base_node (length services * cards_of k cards)

  plan_with-PlanPorts :
      (cards : List (Card F)) (base_server base_node : ℕ) (with_probe : Bool) (k : String)
      (o : Option (List ℕ))
      → PlanPorts cards base_node
          (service_order with_probe)
          k
          (plan_with cards base_server base_node with_probe o)
  plan_with-PlanPorts cards base_server base_node with_probe k none = tt
  plan_with-PlanPorts cards base_server base_node with_probe k (some ids) =
      planned-ports k cards base_node (service_order with_probe)

  -- In a plan the ports of any node, over all services, are consecutive from the base port: one for
  -- each service and card of the node. So no two cards or services of a node share a port, and nodes
  -- do not push one another's ports.
  pub plan_cluster-PlanPorts :
      (inet_aton : String → Option ℕ) (cards : List (Card F)) (base_server base_node : ℕ)
      (with_probe : Bool) (k : String)
      → PlanPorts cards base_node
          (service_order with_probe)
          k
          (plan_cluster inet_aton cards base_server base_node with_probe)
  unfolding plan_cluster
  plan_cluster-PlanPorts inet_aton cards base_server base_node with_probe k =
      plan_with-PlanPorts cards base_server base_node with_probe k
        (rx_only_wlan_ids inet_aton (group_cards cards []))
