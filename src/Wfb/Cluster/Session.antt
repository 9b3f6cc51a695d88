-- ===== src/Wfb/Cluster/Session.antt =====
-- `NodeSession`: the SSH session that keeps a node's script alive. `slept` and `calls` are what the
-- watch has slept and the calls of `on_state`, the oldest first: what each was given, with the restarts
-- that the session's `state` has at that time. Writing the script to the child and the pump of its
-- output change nothing here.
use fpvd.Prelude.{
  ℕ, ◌+◌, Bool, true, false, not, Option, none, some, List, [], ◌∷◌, ◌++◌, if◌then◌else◌,
}
use fpvd.Prelude.Int.{pos}
use fpvd.Prelude.Float.{Float, min_float}

pub record NodeSession (F : Type 0) : Type 0 where
  pub backoff : F
  pub max_backoff : F
  pub stable_reset_s : F
  pub alive : Bool
  pub restarts : ℕ
  pub proc : Bool
  pub supervise : Bool
  pub spawned_at : Option F
  pub delay : F
  pub slept : List F
  pub calls : List (Bool × ℕ)

-- A try to spawn: the time at which it landed, or an OSError.
pub data Spawn (F : Type 0) : Type 0 where
  landed : F → Spawn F
  os_error : Spawn F

module _ {F : Type 0} ⦃fl : Float F⦄ where
  abbrev pub or_max : Option F → F → F
  or_max none m = m
  or_max (some t) m = t

  -- The watch has not started.
  abbrev pub new : F → F → Option F → NodeSession F
  new backoff max_backoff stable_reset_s = record {
    backoff = backoff;
    max_backoff = max_backoff;
    stable_reset_s = or_max stable_reset_s max_backoff;
    alive = false;
    restarts = 0;
    proc = false;
    supervise = false;
    spawned_at = none;
    delay = backoff;
    slept = [];
    calls = [];
  }

  -- `_spawn`
  abbrev pub spawn : NodeSession F → Spawn F → NodeSession F
  spawn s (landed now) = record s { proc = true; alive = true; spawned_at = some now }
  spawn s os_error = record s { proc = false; alive = false; spawned_at = none }

  abbrev pub has_landed : Spawn F → Bool
  has_landed (landed now) = true
  has_landed os_error = false

  abbrev pub notify : NodeSession F → Bool → NodeSession F
  notify s up = record s { calls = s.calls ++ (up, s.restarts) ∷ [] }

  -- `start`, up to the first turn of the watch: a spawn that failed is reported at once.
  unfoldable pub start : NodeSession F → Spawn F → NodeSession F
  start s o =
      let t = record (spawn (record s { supervise = true }) o) { delay = s.backoff } in
      if has_landed o then t else notify t false

  -- The inner loop over the tries to come back: it sleeps, doubles the delay, and goes on while it
  -- supervises and the spawns fail.
  unfoldable pub retry : NodeSession F → List (Spawn F) → NodeSession F
  retry s [] = s
  retry s (o ∷ tries) =
      let t = record s {
        slept = s.slept ++ s.delay ∷ [];
        delay = min_float (fl.mul s.delay (fl.of_int (pos 2))) s.max_backoff;
      } in
      let again = spawn (record t { restarts = t.restarts + 1 }) o in
      let more = retry again tries in
      if not t.supervise then t else if has_landed o then notify again true else more

  -- Up for long enough that the next delay starts from the base.
  abbrev pub was_durable : NodeSession F → F → Bool
  was_durable s now = elim s.spawned_at [
    | none ↦ false
    | some t ↦ fl.le s.stable_reset_s (fl.sub now t)
  ]

  -- The process exits while the session supervises.
  abbrev pub lost : NodeSession F → F → NodeSession F
  lost s now =
      notify (record s { alive = false; delay = if was_durable s now then s.backoff else s.delay })
        false

  -- An exit and the tries after it.
  unfoldable pub on_exit : NodeSession F → F → List (Spawn F) → NodeSession F
  on_exit s now tries = if s.supervise then retry (lost s now) tries else s

  -- `stop` cancels the watch and kills the process.
  unfoldable pub stop : NodeSession F → NodeSession F
  stop s = record s { supervise = false; proc = false; alive = false }
