-- ===== src/Connection/Tests.antt =====
-- Runs of the monitor in fixed-point seconds, and its properties at them.
use fpvd.Prelude.{ℕ, ◌≡◌, refl, Bool, true, false, Option, none, some, List, [], ◌∷◌}
use fpvd.Prelude.Int.{ℤ, pos, ◌-ℤ◌}
use fpvd.Prelude.Fixed.{milli}
use fpvd.Connection.{
  ConnectionMonitor, ConnectionMonitorConfig, State, Snapshot, dict, Pass, Event, rx, pass, new,
  run, evaluate, is_bad, heartbeat, enter_connected, on_tunnel_rx, step, confirm, watch, suspect,
  enter_disconnected,
}
use fpvd.Connection.Alternation.{IsPublished, events_alternate}
use fpvd.Connection.Grace.{Quiet, Short, brief_outage_silent, healthy_pass_clears}

abbrev cfg : ConnectionMonitorConfig ℤ
cfg = record {
  enabled = true;
  tunnel_stale_s = pos 4_000;
  http_poll_s = pos 1_500;
  http_timeout_s = pos 3_000;
  http_fail_count = 2;
  eval_interval_s = pos 500;
  disconnect_grace_s = pos 6_000;
}

-- A pass at `t` thousandths of a second with an answer.
abbrev pass_at : ℕ → Option (Snapshot ℕ) → Bool → Pass ℤ ℕ
pass_at t status healthz = record {
  start = pos t;
  polled = pos t;
  status = status;
  healthz = healthz;
  arrived = none;
  later = pos t;
  now = pos t;
}

abbrev answer : Option (Snapshot ℕ)
answer = some (dict (some 7) none)

abbrev up_and_down : List (Event ℤ ℕ)
up_and_down =
    rx (pos 1_000)
    ∷ pass (pass_at 1_500 answer true)
    ∷ pass (pass_at 6_000 none false)
    ∷ pass (pass_at 13_000 none false)
    ∷ []

-- The run connects and disconnects.
state_up_and_down : (run ⦃fl = milli⦄ (new ⦃fl = milli⦄ cfg) up_and_down).state ≡ State.disconnected
unfolding run milli new step evaluate on_tunnel_rx confirm enter_connected watch heartbeat suspect
    enter_disconnected
state_up_and_down = refl

events_alternate_example :
    IsPublished ⦃fl = milli⦄ (run ⦃fl = milli⦄ (new ⦃fl = milli⦄ cfg) up_and_down)
events_alternate_example = events_alternate ⦃fl = milli⦄ cfg up_and_down

abbrev up : ConnectionMonitor ℤ ℕ
up = enter_connected ⦃fl = milli⦄ (new ⦃fl = milli⦄ cfg) (dict (some 7) none) (pos 1_500)

abbrev outage : List (Event ℤ ℕ)
outage =
    pass (pass_at 6_000 none false)
    ∷ rx (pos 7_000)
    ∷ pass (pass_at 8_000 none true)
    ∷ pass (pass_at 11_000 none false)
    ∷ []

outage-Short : Short ⦃fl = milli⦄ (pos 6_000) outage
unfolding milli ◌-ℤ◌
outage-Short = ((tt, (refl, (refl, tt))), ((refl, tt), (tt, tt)))

brief_outage_silent_run : Quiet ⦃fl = milli⦄ up (run ⦃fl = milli⦄ up outage)
unfolding new enter_connected
brief_outage_silent_run = brief_outage_silent ⦃fl = milli⦄ up outage refl refl outage-Short

abbrev heard : ConnectionMonitor ℤ ℕ
heard = on_tunnel_rx ⦃fl = milli⦄ up (pos 2_000)

healthy :
    is_bad ⦃fl = milli⦄ (heartbeat ⦃fl = milli⦄ heard (pass_at 2_500 none true)) (pos 2_500) ≡ false
unfolding heartbeat on_tunnel_rx enter_connected new milli ◌-ℤ◌
healthy = refl

healthy_pass_clears_run :
    ((evaluate ⦃fl = milli⦄ heard (pass_at 2_500 none true)).bad_since ≡ none)
    × Quiet ⦃fl = milli⦄ heard (evaluate ⦃fl = milli⦄ heard (pass_at 2_500 none true))
unfolding on_tunnel_rx enter_connected
healthy_pass_clears_run =
    healthy_pass_clears ⦃fl = milli⦄ heard (pass_at 2_500 none true) refl healthy
