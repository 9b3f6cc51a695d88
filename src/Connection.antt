-- ===== src/Connection.antt =====
-- gs/fpvdgs/connection_monitor.py: the state machine that decides when the drone is reachable.
-- Thread and socket set-up (`start`, `stop`, `_thread_main`, `_run`) are not modelled. One call of
-- `_evaluate` is a function of what it observes: the clock at each reading, the answer of the HTTP
-- call that it awaits, and the last tunnel record that comes in during that await.
pub mod Alternation
pub mod Grace
mod Tests
use Prim.Native.String.{String}
use fpvd.Prelude.{
  ℕ, suc, ◌+◌, Bool, true, false, ◌||◌, not, Option, none, some, List, [], ◌∷◌, ◌++◌, leb,
  if◌then◌else◌, or_else, is_some,
}
use fpvd.Prelude.Int.{pos, negsuc}
use fpvd.Prelude.Float.{Float}

pub record ConnectionMonitorConfig (F : Type 0) : Type 0 where
  pub enabled : Bool
  pub tunnel_stale_s : F
  pub http_poll_s : F
  pub http_timeout_s : F
  pub http_fail_count : ℕ
  pub eval_interval_s : F
  pub disconnect_grace_s : F

pub data State : Type 0 where
  disconnected armed connected : State

pub data Reason : Type 0 where
  unset tunnel_lost http_failed : Reason

-- The `radio` part of a status document, if it is a dictionary; `J` is the type of JSON values.
pub record Radio (J : Type 0) : Type 0 where
  pub adapter_id : Option J
  pub tx_power_curve : Option J

-- A status document: what `_enter_connected` reads of a dictionary, or another JSON value.
pub data Snapshot (J : Type 0) : Type 0 where
  dict : (version : Option J) (radio : Option (Radio J)) → Snapshot J
  other : Snapshot J

pub record DroneInfo (J : Type 0) : Type 0 where
  pub version : Option J
  pub radio : Option (Radio J)

-- What is published on the bus.
pub data Published (F : Type 0) (J : Type 0) : Type 0 where
  drone_connected : (at_mono : F) (drone : DroneInfo J) → Published F J
  drone_disconnected : (at_mono : F) → Reason → (last_seen_mono : F) → Published F J

-- The monitor, and what it has published so far, the newest first.
pub record ConnectionMonitor (F : Type 0) (J : Type 0) : Type 0 where
  pub cfg : ConnectionMonitorConfig F
  pub state : State
  pub since : F
  pub reason : Reason
  pub drone_info : Option (DroneInfo J)
  pub last_tunnel_rx : F
  pub fail : ℕ
  pub last_http : F
  pub bad_since : Option F
  pub pending_reason : Reason
  pub published : List (Published F J)

-- What one `_evaluate` observes: `start` is the clock at its first reading, `polled` the one stored
-- as the time of the heartbeat, `later` the one after the await, and `now` the last one.
pub record Pass (F : Type 0) (J : Type 0) : Type 0 where
  pub start : F
  pub polled : F
  pub status : Option (Snapshot J)
  pub healthz : Bool
  pub arrived : Option F
  pub later : F
  pub now : F

-- -1.0e9: far past, so the tunnel is stale at boot.
abbrev long_ago : {F : Type 0} → ⦃fl : Float F⦄ → F
long_ago ⦃fl⦄ = fl.of_int (negsuc 999_999_999)

abbrev pub info_of : {J : Type 0} → Snapshot J → DroneInfo J
info_of (dict version radio) = record { version = version; radio = radio }
info_of other = record { version = none; radio = none }

-- What happens to a monitor: a tunnel record at a time, or a pass.
pub data Event (F : Type 0) (J : Type 0) : Type 0 where
  rx : F → Event F J
  pass : Pass F J → Event F J

module _ {F J : Type 0} ⦃fl : Float F⦄ where
  unfoldable pub new : ConnectionMonitorConfig F → ConnectionMonitor F J
  new cfg = record {
    cfg = cfg;
    state = disconnected;
    since = fl.decimal 0 0;
    reason = unset;
    drone_info = none;
    last_tunnel_rx = long_ago;
    fail = 0;
    last_http = long_ago;
    bad_since = none;
    pending_reason = unset;
    published = [];
  }

  -- `_on_stats_event` on a record of the tunnel stream.
  unfoldable pub on_tunnel_rx : ConnectionMonitor F J → F → ConnectionMonitor F J
  on_tunnel_rx m now = record m { last_tunnel_rx = now }

  abbrev pub tunnel_fresh : ConnectionMonitor F J → F → Bool
  tunnel_fresh m now = fl.lt (fl.sub now m.last_tunnel_rx) m.cfg.tunnel_stale_s

  -- The await: tunnel records may come in.
  abbrev pub awaited : ConnectionMonitor F J → Option F → ConnectionMonitor F J
  awaited m none = m
  awaited m (some t) = record m { last_tunnel_rx = t }

  unfoldable pub enter_connected : ConnectionMonitor F J → Snapshot J → F → ConnectionMonitor F J
  enter_connected m snap now = record m {
    state = connected;
    since = now;
    reason = unset;
    drone_info = some (info_of snap);
    fail = 0;
    last_http = now;
    bad_since = none;
    pending_reason = unset;
    published = drone_connected now (info_of snap) ∷ m.published;
  }

  unfoldable pub enter_disconnected : ConnectionMonitor F J → Reason → F → ConnectionMonitor F J
  enter_disconnected m reason now = record m {
    state = disconnected;
    reason = reason;
    drone_info = none;
    fail = 0;
    bad_since = none;
    pending_reason = unset;
    published = drone_disconnected now reason m.since ∷ m.published;
  }

  -- The armed branch: one status call.
  unfoldable pub confirm : ConnectionMonitor F J → Pass F J → ConnectionMonitor F J
  confirm m p =
      let n = awaited m p.arrived in
      elim p.status [
        | some snap ↦ enter_connected n snap p.later
        | none ↦ if tunnel_fresh n p.later then n else record n { state = disconnected }
      ]

  -- The heartbeat of the connected branch.
  unfoldable pub heartbeat : ConnectionMonitor F J → Pass F J → ConnectionMonitor F J
  heartbeat m p =
      let n = awaited (record m { last_http = p.polled }) p.arrived in
      if fl.le m.cfg.http_poll_s (fl.sub p.start m.last_http)
      then record n { fail = if p.healthz then 0 else n.fail + 1 }
      else m

  abbrev pub is_bad : ConnectionMonitor F J → F → Bool
  is_bad m later = not (tunnel_fresh m later) || leb m.cfg.http_fail_count m.fail

  abbrev pub reason_of : ConnectionMonitor F J → F → Reason
  reason_of m later = if tunnel_fresh m later then http_failed else tunnel_lost

  abbrev pub suspect_from : Option F → ConnectionMonitor F J → Pass F J → ConnectionMonitor F J
  suspect_from none m p = record m { bad_since = some p.now; pending_reason = reason_of m p.later }
  suspect_from (some bad_since) m p =
      if fl.le m.cfg.disconnect_grace_s (fl.sub p.now bad_since)
      then enter_disconnected m m.pending_reason p.now
      else m

  -- A bad pass: suspect at first, and disconnected once it has lasted for the grace.
  unfoldable pub suspect : ConnectionMonitor F J → Pass F J → ConnectionMonitor F J
  suspect m p = suspect_from m.bad_since m p

  unfoldable pub watch : ConnectionMonitor F J → Pass F J → ConnectionMonitor F J
  watch m p =
      let n = heartbeat m p in
      if is_bad n p.later
      then suspect n p
      else record n { bad_since = none; pending_reason = unset }

  -- The branches of `_evaluate`, by the state that it begins in.
  abbrev pub evaluate_in : State → ConnectionMonitor F J → Pass F J → ConnectionMonitor F J
  evaluate_in disconnected m p =
      if tunnel_fresh m p.start then confirm (record m { state = armed }) p else m
  evaluate_in armed m p = confirm m p
  evaluate_in connected m p = watch m p

  unfoldable pub evaluate : ConnectionMonitor F J → Pass F J → ConnectionMonitor F J
  evaluate m p = evaluate_in m.state m p

  unfoldable pub step : ConnectionMonitor F J → Event F J → ConnectionMonitor F J
  step m (rx now) = on_tunnel_rx m now
  step m (pass p) = evaluate m p

  pub run : ConnectionMonitor F J → List (Event F J) → ConnectionMonitor F J
  run m [] = m
  run m (e ∷ es) = run (step m e) es
