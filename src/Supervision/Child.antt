-- ===== src/Supervision/Child.antt =====
-- gs/fpvdgs/wfb/children.py: `WfbChild`, the supervisor of one wfb process on the event loop. The pumps
-- of its output and the signals are not modelled. What the operating system and the process do is an
-- argument. A parser is a number: each spawn makes a new one.
use fpvd.Prelude.{
  ℕ, ◌+◌, Bool, true, false, Option, none, some, List, [], ◌∷◌, if◌then◌else◌, is_some,
}
use fpvd.Prelude.Int.{ℤ, pos, negsuc}
use fpvd.Prelude.Float.{Float}
use fpvd.Supervision.Budget.{charge, over}

-- What a spawn and the wait for readiness come to. `exited` is a process that dies on its own before
-- it is ready; `killed` is a transmitter whose handshake timed out, which is killed on purpose.
pub data Spawn : Type 0 where
  os_error : (errno : Option ℕ) → Spawn
  exited : (pid : ℕ) (code : ℤ) → Spawn
  ready : (pid : ℕ) → Spawn
  killed : (code : ℤ) → Spawn

pub record WfbChild (F : Type 0) : Type 0 where
  pub has_parser : Bool
  pub max_restarts : ℕ
  pub restart_window : F
  pub proc : Option ℕ
  pub parser : Option ℕ
  pub next_parser : ℕ
  pub auto_restarts : ℕ
  pub last_exit : Option ℤ
  pub fault : Bool
  pub recent : List F
  pub supervise : Bool
  pub faults_reported : ℕ

abbrev errno_of : Option ℕ → ℤ
errno_of none = negsuc 0
errno_of (some e) = pos e

-- One turn of the inner loop of `_watch`: the clock, whether `stop` came during the back-off sleep, and
-- the outcome of the respawn.
pub record Attempt (F : Type 0) : Type 0 where
  pub now : F
  pub stopped : Bool
  pub outcome : Spawn

-- How the inner loop left: with a fault, with a process to watch, because of a `stop`, or not yet.
pub data Ended : Type 0 where
  faulted running stopped_by_operator unfinished : Ended

abbrev is_ready : Spawn → Bool
is_ready (ready pid) = true
is_ready _ = false

module _ {F : Type 0} where
  abbrev with_parser : WfbChild F → WfbChild F
  with_parser c = record c {
    parser = if c.has_parser then some c.next_parser else none;
    next_parser = c.next_parser + 1;
  }

  abbrev spawned : WfbChild F → Spawn → WfbChild F
  spawned c (os_error errno) = record c { proc = none; last_exit = some (errno_of errno) }
  spawned c (exited pid code) = record c { proc = some pid; last_exit = some code }
  spawned c (ready pid) = record c { proc = some pid }
  spawned c (killed code) = record c { proc = none; last_exit = some code }

  -- `_spawn_and_wait`; it returns whether the process is ready.
  unfoldable pub spawn_and_wait : WfbChild F → Spawn → WfbChild F
  spawn_and_wait c outcome = spawned (with_parser c) outcome

  -- `start`: whatever process there is afterwards is watched.
  unfoldable pub start : WfbChild F → Spawn → WfbChild F × Bool
  unfolding spawn_and_wait
  start c outcome =
      let d = spawn_and_wait (record c { fault = false; recent = [] }) outcome in
      (if is_some d.proc then record d { supervise = true } else d, is_ready outcome)

  -- `stop`; `code` is what the killed process exits with.
  unfoldable pub stop : WfbChild F → ℤ → WfbChild F
  stop c code = record c {
    supervise = false;
    proc = none;
    last_exit = if is_some c.proc then some code else c.last_exit;
  }

module _ {F : Type 0} ⦃fl : Float F⦄ where
  abbrev pub charged : WfbChild F → F → WfbChild F
  charged c now = record c { recent = charge c.restart_window now c.recent }

  -- The budget is exceeded: `on_fault` is called once.
  abbrev pub give_up : WfbChild F → WfbChild F
  give_up c = record c {
    fault = true;
    supervise = false;
    proc = none;
    faults_reported = c.faults_reported + 1;
  }

  abbrev pub counted : WfbChild F → WfbChild F
  counted c = record c { auto_restarts = c.auto_restarts + 1 }

  -- The inner loop of `_watch`.
  unfoldable pub respawn : WfbChild F → List (Attempt F) → WfbChild F × Ended
  respawn c [] = (c, unfinished)
  respawn c (a ∷ rest) =
      let d = charged c a.now in
      let e = counted d in
      let f = spawn_and_wait e a.outcome in
      elim (over c.max_restarts d.recent) [
        | true ↦ (give_up d, faulted)
        | false ↦ elim a.stopped [
          | true ↦ (record e { supervise = false }, stopped_by_operator)
          | false ↦ elim (is_some f.proc) [ true ↦ (f, running) | false ↦ respawn f rest ]
        ]
      ]

  -- The process has exited with `code`: a turn of the outer loop of `_watch`, unless `stop` came first.
  unfoldable pub on_exit : WfbChild F → ℤ → List (Attempt F) → WfbChild F × Ended
  unfolding respawn
  on_exit c code rest =
      if c.supervise
      then respawn (record c { last_exit = some code }) rest
      else (c, stopped_by_operator)
