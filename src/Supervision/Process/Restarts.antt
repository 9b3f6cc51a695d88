-- ===== src/Supervision/Process/Restarts.antt =====
-- What the supervisor keeps through crashes and restarts, and where its watcher gets stuck.
use fpvd.Prelude.{
  ℕ, ◌+◌, ◌≤◌, ◌≡◌, inl, inr, refl, true, false, ◌&&◌, Option, none, some, List, [], ◌∷◌, arith,
  length, is_some, if_ind, Bool-cases, ap,
}
use fpvd.Prelude.Int.{ℤ}
use fpvd.Prelude.Float.{Float}
use fpvd.Supervision.Budget.{charge, over}
use fpvd.Supervision.Process.{
  Op, ProcessSupervisor, Spawn, Turn, on_crash, operate, operate_all, restart, spawn_and_wait,
  start, stop, watch, watch_all, watch_exit, log_error, os_error, exited, ready, timed_out,
  start_op, stop_op, restart_op, watch_op,
}

module _ {F : Type 0} ⦃fl : Float F⦄ where
  -- The budget: while it supervises, at most `max_restarts` crashes are in the window, and a
  -- fault ends supervision with no process.
  pub record IsBudgeted (s : ProcessSupervisor F) : Type 0 where
    pub within : s.supervise ≡ true → length s.recent ≤ s.max_restarts
    pub faulted : s.fault ≡ true → (s.supervise ≡ false) × (s.proc ≡ none)

  spawn_and_wait-fixed :
      (s : ProcessSupervisor F) (outcome : Spawn)
      → ((spawn_and_wait s outcome).0.recent ≡ s.recent)
        × ((spawn_and_wait s outcome).0.max_restarts ≡ s.max_restarts)
        × ((spawn_and_wait s outcome).0.fault ≡ s.fault)
        × ((spawn_and_wait s outcome).0.supervise ≡ s.supervise)
  unfolding spawn_and_wait
  spawn_and_wait-fixed s (log_error errno) = (refl, refl, refl, refl)
  spawn_and_wait-fixed s (os_error errno) = (refl, refl, refl, refl)
  spawn_and_wait-fixed s (exited pid code) = (refl, refl, refl, refl)
  spawn_and_wait-fixed s (ready pid) = (refl, refl, refl, refl)
  spawn_and_wait-fixed s (timed_out pid) = (refl, refl, refl, refl)

  start-IsBudgeted : (s : ProcessSupervisor F) (outcome : Spawn) → IsBudgeted (start s outcome).0
  unfolding start
  start-IsBudgeted s outcome =
      let f = spawn_and_wait-fixed (record s { fault = false; recent = [] }) outcome in
      let n = ap length f.0 in
      record { within = λ _. omega (arith, n); faulted = λ e. ground (arith, e, f.2) }

  stop-IsBudgeted : (s : ProcessSupervisor F) (code : ℤ) → IsBudgeted (stop s code)
  unfolding stop
  stop-IsBudgeted s code = record { within = λ e. ground (arith, e); faulted = λ _. (refl, refl) }

  on_crash-IsBudgeted :
      (s : ProcessSupervisor F) (code : ℤ) (turn : Turn F)
      → s.fault ≡ false
      → IsBudgeted (on_crash s code turn)
  unfolding on_crash
  on_crash-IsBudgeted s code turn f =
      let recent = charge s.restart_window turn.now s.recent in
      let t = record s { last_exit = some code; proc = none; recent = recent } in
      if_ind IsBudgeted (over s.max_restarts recent) (record t { fault = true; supervise = false })
        (spawn_and_wait (record t { auto_restarts = t.auto_restarts + 1 }) turn.outcome).0
        (λ _. record { within = λ e. ground (arith, e); faulted = λ _. (refl, refl) })
        (λ e.
          let g =
            spawn_and_wait-fixed (record t { auto_restarts = t.auto_restarts + 1 }) turn.outcome in
          let n = ap length g.0 in
          record {
            within = λ _. ground (arith, n, g.1, e);
            faulted = λ h. ground (arith, h, g.2, f);
          })

  watch-IsBudgeted :
      (s : ProcessSupervisor F) (turn : Turn F) → IsBudgeted s → IsBudgeted (watch s turn)
  unfolding watch
  watch-IsBudgeted s turn b =
      if_ind IsBudgeted (s.supervise && is_some s.proc) (watch_exit s turn.exit turn) s
        (λ e. exits turn.exit (unfaulted e)) (λ _. b)
    where
      unfaulted : (s.supervise && is_some s.proc) ≡ true → s.fault ≡ false
      unfaulted e = elim (Bool-cases s.fault) [
        | inl f ↦ let k = b.faulted f in ground (arith, e, k)
        | inr f ↦ f
      ]

      exits : (o : Option ℤ) → s.fault ≡ false → IsBudgeted (watch_exit s o turn)
      exits none f = b
      exits (some code) f = on_crash-IsBudgeted s code turn f

  operate-IsBudgeted :
      (s : ProcessSupervisor F) (op : Op F) → IsBudgeted s → IsBudgeted (operate s op)
  unfolding restart
  operate-IsBudgeted s (start_op outcome) b = start-IsBudgeted s outcome
  operate-IsBudgeted s (stop_op code) b = stop-IsBudgeted s code
  operate-IsBudgeted s (restart_op code outcome) b =
      let t = stop s code in start-IsBudgeted (record t { restarts = t.restarts + 1 }) outcome
  operate-IsBudgeted s (watch_op turn) b = watch-IsBudgeted s turn b

  -- Whatever operators, watcher and operating system do to a supervisor of which this holds, while
  -- it supervises at most `max_restarts` crashes are in its budget, and with a fault it neither
  -- supervises nor has a process.
  pub operate_all-IsBudgeted :
      (s : ProcessSupervisor F) (ops : List (Op F)) → IsBudgeted s → IsBudgeted (operate_all s ops)
  unfolding operate_all
  operate_all-IsBudgeted s [] b = b
  operate_all-IsBudgeted s (op ∷ ops) b =
      operate_all-IsBudgeted (operate s op) ops (operate-IsBudgeted s op b)

  watch-none : (s : ProcessSupervisor F) (turn : Turn F) → s.proc ≡ none → watch s turn ≡ s
  unfolding watch
  watch-none s turn e =
      let off : (s.supervise && is_some s.proc) ≡ false = ground (arith, e) in rw off

  watch_all-none :
      (s : ProcessSupervisor F) (ts : List (Turn F)) → s.proc ≡ none → watch_all s ts ≡ s
  unfolding watch_all
  watch_all-none s [] e = refl
  watch_all-none s (t ∷ ts) e = rw (watch-none s t e) (watch_all-none s ts e)

  crash_without_process :
      (s : ProcessSupervisor F) (code : ℤ) (errno : Option ℕ) (turn : Turn F)
      → over s.max_restarts (charge s.restart_window turn.now s.recent) ≡ false
      → turn.outcome ≡ os_error errno
      → ((on_crash s code turn).proc ≡ none)
        × ((on_crash s code turn).fault ≡ s.fault)
        × ((on_crash s code turn).supervise ≡ s.supervise)
        × ((on_crash s code turn).auto_restarts ≡ s.auto_restarts + 1)
  unfolding on_crash spawn_and_wait
  crash_without_process s code errno turn h o = rw (h, o) (refl, refl, refl, refl)

  -- After a crash within the budget whose respawn fails with the OSError of `Popen` the watcher does
  -- nothing more, however many turns it takes: there is no process, and neither the fault nor the
  -- supervision flag changes.
  pub failed_respawn_sticks :
      (s : ProcessSupervisor F) (code : ℤ) (errno : Option ℕ) (turn : Turn F) (ts : List (Turn F))
      → over s.max_restarts (charge s.restart_window turn.now s.recent) ≡ false
      → turn.outcome ≡ os_error errno
      → let t = watch_all (on_crash s code turn) ts in
        (t.proc ≡ none)
        × (t.fault ≡ s.fault)
        × (t.supervise ≡ s.supervise)
        × (t.auto_restarts ≡ s.auto_restarts + 1)
  failed_respawn_sticks s code errno turn ts h o =
      let c = crash_without_process s code errno turn h o in
      let e = watch_all-none (on_crash s code turn) ts c.0 in rw e c
