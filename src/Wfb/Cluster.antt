-- ===== src/Wfb/Cluster.antt =====
-- gs/fpvdgs/wfb/cluster.py, `plan_cluster`: the ports of the cards of a cluster. `inet_aton` is libc's
-- parser of dotted quads: `none` is an OSError.
pub mod Ports
pub mod Probe
pub mod Session
pub mod Backoff
pub mod Script
pub mod Served
mod Tests
use Prim.Native.Nat.{bit_or}
use Prim.Native.String.{String, ◌++◌ as append}
use text.Mathlib.Text.{◌==◌ as str_eq}
use fpvd.Prelude.{
  ℕ, zero, suc, ◌+◌, ◌*◌, Bool, Option, none, some, List, [], ◌∷◌, ◌++◌, map, min, or_else,
  if◌then◌else◌, length,
}
use fpvd.Prelude.Dict.{get_by, put_by}
use fpvd.Prelude.Show.{show, join_with, str_le, concat}
use fpvd.Wfb.Cards.{Card, is_rx_only}

abbrev pub service_order : Bool → List String
service_order with_probe =
    "video" ∷ "mavlink" ∷ "tunnel" ∷ (if with_probe then "probe" ∷ [] else [])

-- The radio ports of a service.
pub record Streams : Type 0 where
  pub rx : Option ℕ
  pub tx : Option ℕ

abbrev pub streams_for : Bool → List (String × Streams)
streams_for with_probe =
    ("video", record { rx = some 0; tx = none })
    ∷ ("mavlink", record { rx = some 16; tx = some 144 })
    ∷ ("tunnel", record { rx = some 32; tx = some 160 })
    ∷ (if with_probe then ("probe", record { rx = some 50; tx = none }) ∷ [] else [])

abbrev pub local_node : String
local_node = "127.0.0.1"

-- The ports that a node has for a service.
pub record Allocation : Type 0 where
  pub node : String
  pub service : String
  pub ports : List ℕ

-- `n` numbers of `itertools.count(start)`.
abbrev pub count_from : ℕ → ℕ → List ℕ
count_from start zero = []
count_from start (suc n) = start ∷ count_from (start + 1) n

-- The next number of each node's counter.
abbrev pub Counters : Type 0
Counters = List (String × ℕ)

-- `server_port`
abbrev pub number_services : ℕ → List String → List (String × ℕ)
number_services port [] = []
number_services port (s ∷ services) = (s, port) ∷ number_services (port + 1) services

-- `min(ports)`, of a list that is not empty.
abbrev pub min_of : List ℕ → ℕ
min_of [] = 0
min_of (p ∷ []) = p
min_of (p ∷ q ∷ ports) = min p (min_of (q ∷ ports))

abbrev pub injector_base : List Allocation → List ((String × String) × ℕ)
injector_base allocations = map (λ a. ((a.node, a.service), min_of a.ports)) allocations

-- `f"{node}:{','.join(ports)}"`
abbrev pub peer_text : Allocation → String
peer_text a = append a.node (append ":" (join_with "," (map show a.ports)))

unfoldable pub peers_of : String → List Allocation → List String
peers_of service [] = []
peers_of service (a ∷ allocations) =
    let rest = peers_of service allocations in
    if str_eq a.service service then peer_text a ∷ rest else rest

abbrev pub host_or_local : Option String → String
host_or_local none = local_node
host_or_local (some host) = if str_eq host "" then local_node else host

abbrev pub Nodes : Type 0 → Type 0
Nodes F = List (String × List (Card F))

-- `(node_ipv4_int(host) << 24) | wlan_idx`
abbrev pub cluster_wlan_id : (String → Option ℕ) → String → ℕ → Option ℕ
cluster_wlan_id inet_aton host wlan_idx = elim (inet_aton host) [
  | none ↦ none
  | some ip ↦ some (bit_or (ip * 16777216) wlan_idx)
]

abbrev pub cons_id : Option ℕ → Option (List ℕ) → Option (List ℕ)
cons_id (some i) (some ids) = some (i ∷ ids)
cons_id _ _ = none

abbrev pub append_ids : Option (List ℕ) → Option (List ℕ) → Option (List ℕ)
append_ids (some a) (some b) = some (a ++ b)
append_ids _ _ = none

-- `injector_base` and `peers` are read off the allocations.
pub record ClusterPlan (F : Type 0) : Type 0 where
  pub nodes : Nodes F
  pub server_port : List (String × ℕ)
  pub allocations : List Allocation
  pub rx_only : List ℕ

module _ {F : Type 0} where
  abbrev pub node_key : Card F → String
  node_key card = host_or_local card.host

  -- `nodes.setdefault(node, []).append(card)`
  unfoldable pub add_card : String → Card F → Nodes F → Nodes F
  add_card node card [] = (node, card ∷ []) ∷ []
  add_card node card ((m, cards) ∷ nodes) =
      if str_eq m node
      then (m, cards ++ card ∷ []) ∷ nodes
      else (m, cards) ∷ add_card node card nodes

  unfoldable pub group_cards : List (Card F) → Nodes F → Nodes F
  group_cards [] nodes = nodes
  group_cards (card ∷ cards) nodes = group_cards cards (add_card (node_key card) card nodes)

  -- `sorted(nodes)`, with the cards of each.
  abbrev pub insert_node : String × List (Card F) → Nodes F → Nodes F
  insert_node e [] = e ∷ []
  insert_node e (d ∷ nodes) = if str_le e.0 d.0 then e ∷ d ∷ nodes else d ∷ insert_node e nodes

  unfoldable pub sort_nodes : Nodes F → Nodes F
  sort_nodes [] = []
  sort_nodes (e ∷ nodes) = insert_node e (sort_nodes nodes)

  -- The ports of one node for one service; `start` is the node's first port.
  abbrev pub allocate : ℕ → String → Counters → String × List (Card F) → Allocation × Counters
  allocate start service counters (node, cards) =
      let next = or_else (get_by str_eq node counters) start in
      (
        record { node = node; service = service; ports = count_from next (length cards) },
        put_by str_eq node (next + length cards) counters,
      )

  unfoldable pub allocate_nodes : ℕ → String → Counters → Nodes F → List Allocation × Counters
  allocate_nodes start service counters [] = ([], counters)
  allocate_nodes start service counters (e ∷ nodes) =
      let a = allocate start service counters e in
      let r = allocate_nodes start service a.1 nodes in (a.0 ∷ r.0, r.1)

  unfoldable pub allocate_all : ℕ → Counters → Nodes F → List String → List Allocation
  allocate_all start counters nodes [] = []
  allocate_all start counters nodes (s ∷ services) =
      let r = allocate_nodes start s counters nodes in r.0 ++ allocate_all start r.1 nodes services

  unfoldable pub rx_only_of : (String → Option ℕ) → ℕ → List (Card F) → Option (List ℕ)
  rx_only_of inet_aton idx [] = some []
  rx_only_of inet_aton idx (card ∷ cards) =
      let rest = rx_only_of inet_aton (idx + 1) cards in
      if is_rx_only card then cons_id (cluster_wlan_id inet_aton (node_key card) idx) rest else rest

  unfoldable pub rx_only_wlan_ids : (String → Option ℕ) → Nodes F → Option (List ℕ)
  rx_only_wlan_ids inet_aton [] = some []
  rx_only_wlan_ids inet_aton ((node, cards) ∷ nodes) =
      append_ids (rx_only_of inet_aton 0 cards) (rx_only_wlan_ids inet_aton nodes)

  abbrev pub plan_with : List (Card F) → ℕ → ℕ → Bool → Option (List ℕ) → Option (ClusterPlan F)
  plan_with cards base_server base_node with_probe none = none
  plan_with cards base_server base_node with_probe (some ids) =
      let nodes = group_cards cards [] in
      some (record {
        nodes = nodes;
        server_port = number_services base_server (service_order with_probe);
        allocations = allocate_all base_node [] (sort_nodes nodes) (service_order with_probe);
        rx_only = ids;
      })

  unfoldable pub plan_cluster :
      (String → Option ℕ) → List (Card F) → ℕ → ℕ → Bool → Option (ClusterPlan F)
  plan_cluster inet_aton cards base_server base_node with_probe =
      plan_with cards base_server base_node with_probe
        (rx_only_wlan_ids inet_aton (group_cards cards []))
