-- ===== src/Wfb/Cluster/Tests.antt =====
-- A cluster of the local node with two cards and a remote node with one.
use Prim.Native.String.{String}
use fpvd.Prelude.{ℕ, ◌≡◌, refl, true, false, Option, none, some, List, [], ◌∷◌, ◌++◌, replicate}
use fpvd.Prelude.Int.{ℤ, pos, ◌*ℤ◌}
use fpvd.Prelude.Dict.{get_by, put_by}
use fpvd.Prelude.Fixed.{milli, milli-IsOrdered}
use fpvd.Prelude.Show.{show, join_with, lstrip, rstrip, lines_from}
use fpvd.Wfb.Cards.{Card, off, local_card}
use fpvd.Wfb.Cluster.{
  ClusterPlan, peers_of, add_card, group_cards, sort_nodes, allocate_nodes, allocate_all,
  rx_only_of, rx_only_wlan_ids, plan_cluster, service_order,
}
use fpvd.Wfb.Cluster.Ports.{PlanPorts, plan_cluster-PlanPorts}
use fpvd.Wfb.Cluster.Probe.{OnlyAdds, plan_cluster-OnlyAdds}
use fpvd.Wfb.Cluster.Session.{NodeSession, landed, os_error, new, start, retry, on_exit}
use fpvd.Wfb.Cluster.Backoff.{IsCapped, run, run-IsCapped, CameBack, on_exit-CameBack}
use fpvd.Wfb.Cluster.Script.{ssh_argv, init_lines}

abbrev remote : Card ℤ
remote = record (local_card "wlan2") {
  host = some "10.0.0.2";
  txpower_dbm = off;
  init_script = some " iw phy phy0 interface add wlan2 type monitor || true\n";
}

abbrev cards : List (Card ℤ)
cards = remote ∷ local_card "wlan0" ∷ local_card "wlan1" ∷ []

-- The address of the sample as a number.
abbrev inet_aton : String → Option ℕ
inet_aton host = some 167772162

abbrev peers_in : String → Option (ClusterPlan ℤ) → List String
peers_in service none = []
peers_in service (some plan) = peers_of service plan.allocations

peers :
    peers_in "mavlink" (plan_cluster inet_aton cards 10000 11000 false)
    ≡ "10.0.0.2:11001" ∷ "127.0.0.1:11002,11003" ∷ []
unfolding plan_cluster rx_only_wlan_ids rx_only_of group_cards add_card sort_nodes allocate_all
    allocate_nodes peers_of get_by put_by join_with show
peers = refl

plan_cluster-PlanPorts_example :
    PlanPorts cards 11000
      (service_order true)
      "127.0.0.1"
      (plan_cluster inet_aton cards 10000 11000 true)
plan_cluster-PlanPorts_example = plan_cluster-PlanPorts inet_aton cards 10000 11000 true "127.0.0.1"

plan_cluster-OnlyAdds_example :
    OnlyAdds 10000
      (plan_cluster inet_aton cards 10000 11000 false)
      (plan_cluster inet_aton cards 10000 11000 true)
plan_cluster-OnlyAdds_example = plan_cluster-OnlyAdds inet_aton cards 10000 11000

-- Up since 0.
abbrev up : NodeSession ℤ
up = start ⦃fl = milli⦄ (new ⦃fl = milli⦄ (pos 2000) (pos 30000) none) (landed (pos 0))

-- Lost after a minute, three failures, then back: it slept 2, 4, 8 and 16 seconds.
slept :
    (on_exit ⦃fl = milli⦄ up (pos 60000) (replicate 3 os_error ++ landed (pos 90000) ∷ [])).slept
    ≡ pos 2000 ∷ pos 4000 ∷ pos 8000 ∷ pos 16000 ∷ []
unfolding on_exit retry start milli ◌*ℤ◌
slept = refl

abbrev up_session : NodeSession ℤ
up_session = record (new ⦃fl = milli⦄ (pos 2000) (pos 30000) none) {
  supervise = true;
  proc = true;
  alive = true;
  spawned_at = some (pos 0);
}

capped : IsCapped ⦃fl = milli⦄ up_session
unfolding milli
capped = (tt, refl, refl)

run-IsCapped_example : IsCapped ⦃fl = milli⦄ (
    run ⦃fl = milli⦄ up_session
      ((pos 5, os_error ∷ landed (pos 9) ∷ []) ∷ (pos 12, os_error ∷ []) ∷ []))
run-IsCapped_example =
    run-IsCapped ⦃fl = milli⦄ milli-IsOrdered up_session
      ((pos 5, os_error ∷ landed (pos 9) ∷ []) ∷ (pos 12, os_error ∷ []) ∷ []) capped

on_exit-CameBack_example :
    CameBack ⦃fl = milli⦄ up_session (pos 60000) 3 (
      on_exit ⦃fl = milli⦄ up_session (pos 60000) (replicate 3 os_error ++ landed (pos 90000) ∷ []))
on_exit-CameBack_example = on_exit-CameBack ⦃fl = milli⦄ up_session (pos 60000) 3 (pos 90000) refl

-- Two cards of a node with the same snippet: it runs once.
snippets :
    init_lines ⦃fl = milli⦄ [] (remote ∷ remote ∷ [])
    ≡ "# custom init (per link.cards initScript)"
      ∷ "iw phy phy0 interface add wlan2 type monitor || true" ∷ "" ∷ []
unfolding init_lines lstrip rstrip lines_from
snippets = refl

ssh :
    ssh_argv ⦃fl = milli⦄ remote
    ≡ "ssh" ∷ "-o" ∷ "BatchMode=yes" ∷ "-o" ∷ "ServerAliveInterval=5" ∷ "-o"
      ∷ "ServerAliveCountMax=3" ∷ "-o" ∷ "StrictHostKeyChecking=accept-new" ∷ "-p" ∷ "22"
      ∷ "root@10.0.0.2" ∷ "exec sh -s" ∷ []
unfolding ssh_argv show
ssh = refl
