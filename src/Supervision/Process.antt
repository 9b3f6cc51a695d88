-- ===== src/Supervision/Process.antt =====
-- gs/fpvdgs/runner_supervisor.py: `ProcessSupervisor`. Signals, pipes and the watcher thread are not
-- modelled. What the operating system does is an argument: the outcome of a spawn, whether the
-- process has exited when it is polled, and the clock.
pub mod Restarts
use fpvd.Prelude.{
  ℕ, ◌+◌, ◌≤◌, ◌≡◌, inl, inr, refl, Bool, true, false, ◌&&◌, Option, none, some, List, [], ◌∷◌,
  arith, if◌then◌else◌, length, is_some, if_ind, Bool-cases, ap,
}
use fpvd.Prelude.Int.{ℤ, pos, negsuc}
use fpvd.Prelude.Float.{Float}
use fpvd.Supervision.Budget.{charge, over}

-- What a spawn and the wait for readiness come to: the OSError of opening the log file, which leaves the
-- process as it was, or of the spawn, with its number, a process that exits before it is ready, one that
-- is ready, or one that is alive at the timeout.
pub data Spawn : Type 0 where
  log_error : (errno : Option ℕ) → Spawn
  os_error : (errno : Option ℕ) → Spawn
  exited : (pid : ℕ) (code : ℤ) → Spawn
  ready : (pid : ℕ) → Spawn
  timed_out : (pid : ℕ) → Spawn

pub record ProcessSupervisor (F : Type 0) : Type 0 where
  pub max_restarts : ℕ
  pub restart_window : F
  pub ready_on_timeout : Bool
  pub proc : Option ℕ
  pub restarts : ℕ
  pub auto_restarts : ℕ
  pub last_exit : Option ℤ
  pub fault : Bool
  pub recent : List F
  pub supervise : Bool

-- `e.errno if e.errno is not None else -1`
abbrev errno_of : Option ℕ → ℤ
errno_of none = negsuc 0
errno_of (some e) = pos e

module _ {F : Type 0} where
  -- `_spawn_and_wait`, and what it returns.
  unfoldable pub spawn_and_wait : ProcessSupervisor F → Spawn → ProcessSupervisor F × Bool
  spawn_and_wait s (log_error errno) = (record s { last_exit = some (errno_of errno) }, false)
  spawn_and_wait s (os_error errno) =
      (record s { proc = none; last_exit = some (errno_of errno) }, false)
  spawn_and_wait s (exited pid code) = (record s { proc = some pid; last_exit = some code }, false)
  spawn_and_wait s (ready pid) = (record s { proc = some pid }, true)
  spawn_and_wait s (timed_out pid) = (record s { proc = some pid }, s.ready_on_timeout)

  unfoldable pub start : ProcessSupervisor F → Spawn → ProcessSupervisor F × Bool
  unfolding spawn_and_wait
  start s outcome =
      let r = spawn_and_wait (record s { fault = false; recent = [] }) outcome in
      (record r.0 { supervise = true }, r.1)

  -- `stop`; `code` is what the killed process exits with.
  unfoldable pub stop : ProcessSupervisor F → ℤ → ProcessSupervisor F
  stop s code = record s {
    supervise = false;
    proc = none;
    last_exit = if is_some s.proc then some code else s.last_exit;
  }

  unfoldable pub restart : ProcessSupervisor F → ℤ → Spawn → ProcessSupervisor F × Bool
  unfolding start stop
  restart s code outcome =
      let t = stop s code in start (record t { restarts = t.restarts + 1 }) outcome

-- A turn of the watcher: the exit code of the process if it has exited, the clock, and the outcome of
-- the spawn that follows.
pub record Turn (F : Type 0) : Type 0 where
  pub exit : Option ℤ
  pub now : F
  pub outcome : Spawn

module _ {F : Type 0} ⦃fl : Float F⦄ where
  -- `_on_crash_locked`
  unfoldable pub on_crash : ProcessSupervisor F → ℤ → Turn F → ProcessSupervisor F
  unfolding spawn_and_wait
  on_crash s code turn =
      let t = record s {
        last_exit = some code;
        proc = none;
        recent = charge s.restart_window turn.now s.recent;
      } in
      if over t.max_restarts t.recent
      then record t { fault = true; supervise = false }
      else (spawn_and_wait (record t { auto_restarts = t.auto_restarts + 1 }) turn.outcome).0

  abbrev pub watch_exit : ProcessSupervisor F → Option ℤ → Turn F → ProcessSupervisor F
  watch_exit s none turn = s
  watch_exit s (some code) turn = on_crash s code turn

  -- The body of `_watch_loop`.
  unfoldable pub watch : ProcessSupervisor F → Turn F → ProcessSupervisor F
  watch s turn = if s.supervise && is_some s.proc then watch_exit s turn.exit turn else s

  unfoldable pub watch_all : ProcessSupervisor F → List (Turn F) → ProcessSupervisor F
  watch_all s [] = s
  watch_all s (t ∷ ts) = watch_all (watch s t) ts

-- What an operator, the watcher and the operating system do.
pub data Op (F : Type 0) : Type 0 where
  start_op : Spawn → Op F
  stop_op : (code : ℤ) → Op F
  restart_op : (code : ℤ) → Spawn → Op F
  watch_op : Turn F → Op F

module _ {F : Type 0} ⦃fl : Float F⦄ where
  abbrev pub operate : ProcessSupervisor F → Op F → ProcessSupervisor F
  operate s (start_op outcome) = (start s outcome).0
  operate s (stop_op code) = stop s code
  operate s (restart_op code outcome) = (restart s code outcome).0
  operate s (watch_op turn) = watch s turn

  unfoldable pub operate_all : ProcessSupervisor F → List (Op F) → ProcessSupervisor F
  operate_all s [] = s
  operate_all s (op ∷ ops) = operate_all (operate s op) ops
