-- ===== src/Supervision/Tests.antt =====
-- Supervised processes at concrete crashes.
use fpvd.Prelude.{ℕ, ◌+◌, ◌≡◌, refl, true, false, none, some, List, [], ◌∷◌, arith}
use fpvd.Prelude.Int.{ℤ, pos, negsuc, ◌-ℤ◌}
use fpvd.Prelude.Fixed.{milli}
use fpvd.Supervision.Budget.{charge, over}
use fpvd.Supervision.Process
use fpvd.Supervision.Process.{
  ProcessSupervisor, Turn, Op, start_op, stop_op, restart_op, watch_op, operate_all, watch_all,
  on_crash,
}
use fpvd.Supervision.Process.Restarts.{IsBudgeted, operate_all-IsBudgeted, failed_respawn_sticks}
use fpvd.Supervision.Child
use fpvd.Supervision.Child.{WfbChild, Attempt, respawn}
use fpvd.Supervision.Respawn.{Close, GivenUp, Ends, respawn_gives_up, respawn-Ends}

abbrev viewer : ProcessSupervisor ℤ
viewer = record {
  max_restarts = 5;
  restart_window = pos 60_000;
  ready_on_timeout = true;
  proc = some 41;
  restarts = 0;
  auto_restarts = 0;
  last_exit = none;
  fault = false;
  recent = [];
  supervise = true;
}

abbrev crash : Turn ℤ
crash = record { exit = some (pos 1); now = pos 9_000; outcome = Process.os_error (some 2) }

operate_all-IsBudgeted_example : IsBudgeted ⦃fl = milli⦄ (
    operate_all ⦃fl = milli⦄ viewer (
      start_op (Process.timed_out 7)
      ∷ watch_op crash
      ∷ restart_op (negsuc 14) (Process.ready 8)
      ∷ stop_op (pos 0)
      ∷ []))
operate_all-IsBudgeted_example =
    operate_all-IsBudgeted ⦃fl = milli⦄ viewer
      (start_op (Process.timed_out 7)
        ∷ watch_op crash
        ∷ restart_op (negsuc 14) (Process.ready 8)
        ∷ stop_op (pos 0)
        ∷ [])
      (record { within = λ _. ground arith; faulted = λ e. ground (arith, e) })

under_budget : over ⦃fl = milli⦄ 5 (charge ⦃fl = milli⦄ (pos 60_000) (pos 9_000) []) ≡ false
unfolding charge
under_budget = refl

failed_respawn_sticks_example :
    let t =
      watch_all ⦃fl = milli⦄ (on_crash ⦃fl = milli⦄ viewer (pos 1) crash) (crash ∷ crash ∷ []) in
    (t.proc ≡ none) × (t.fault ≡ false) × (t.supervise ≡ true) × (t.auto_restarts ≡ 0 + 1)
failed_respawn_sticks_example =
    failed_respawn_sticks ⦃fl = milli⦄ viewer (pos 1) (some 2) crash (crash ∷ crash ∷ [])
      under_budget refl

abbrev receiver : WfbChild ℤ
receiver = record {
  has_parser = true;
  max_restarts = 2;
  restart_window = pos 60_000;
  proc = some 41;
  parser = some 0;
  next_parser = 1;
  auto_restarts = 0;
  last_exit = none;
  fault = false;
  recent = [];
  supervise = true;
  faults_reported = 0;
}

abbrev try_at : ℕ → Attempt ℤ
try_at t = record { now = pos t; stopped = false; outcome = Child.os_error (some 2) }

abbrev tries : List (Attempt ℤ)
tries = try_at 1_000 ∷ try_at 1_500 ∷ try_at 2_000 ∷ []

tries-Close : Close ⦃fl = milli⦄ (pos 60_000) [] tries
unfolding milli ◌-ℤ◌
tries-Close = (tt, ((refl, tt), ((refl, (refl, tt)), tt)))

respawn_gives_up_example :
    GivenUp ⦃fl = milli⦄ receiver
      (respawn ⦃fl = milli⦄ receiver tries).0
      (respawn ⦃fl = milli⦄ receiver tries).1
respawn_gives_up_example =
    respawn_gives_up ⦃fl = milli⦄ receiver tries tries-Close
      ((refl, refl), ((refl, refl), ((refl, refl), tt))) refl (ground arith)

respawn-Ends_run : Ends ⦃fl = milli⦄ receiver (respawn ⦃fl = milli⦄ receiver tries)
respawn-Ends_run = respawn-Ends ⦃fl = milli⦄ receiver tries
