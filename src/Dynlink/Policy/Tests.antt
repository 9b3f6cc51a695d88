-- ===== src/Dynlink/Policy/Tests.antt =====
-- Runs of the policy in fixed-point numbers, and the properties at them.
use fpvd.Prelude.{◌≡◌, ◌<◌, ◌≤◌, refl, Option, none, some, [], ◌∷◌, arith, or_else}
use fpvd.Prelude.Int.{ℤ}
use fpvd.Prelude.Fixed.{milli}
use fpvd.Prelude.Dict.{get?, put, remove}
use fpvd.Dynlink.LearnedPrior
use fpvd.Dynlink.LearnedPrior.{lsq_slope}
use fpvd.Dynlink.Knee
use fpvd.Dynlink.Selector
use fpvd.Dynlink.Selector.{start_with}
use fpvd.Dynlink.Selector.Select.{select}
use fpvd.Dynlink.Signals.{Signals}
use fpvd.Dynlink.Policy.{Policy, Decision, prepare, finish, tick, loss_event}
use fpvd.Dynlink.Policy.Steps.{Ticked, tick_total}
use fpvd.Dynlink.Policy.Cooldown.{window, loss, step, run, demote_cools}
use fpvd.Dynlink.Policy.LossEvents.{Lost, loss_event_total}
use fpvd.Dynlink.Policy.Gates.{Opened, tick_raise}
use fpvd.Dynlink.Samples.{policy0, selector0, selector0-IsValid, window_at, num}

abbrev clean : Signals ℤ
clean = window_at 100_000 (some (num 25_000)) (num 0)

abbrev lossy : Signals ℤ
lossy = window_at 100_050 (some (num 25_000)) (num 300)

tick_total_example :
    (x : Policy ℤ × Decision ℤ) × (tick ⦃fl = milli⦄ policy0 clean ≡ some x)
    × Ticked ⦃fl = milli⦄ policy0 clean x.0 x.1
tick_total_example = tick_total ⦃fl = milli⦄ policy0 clean selector0-IsValid

loss_event_total_example :
    (x : Policy ℤ × Option (Decision ℤ)) × (loss_event ⦃fl = milli⦄ policy0 lossy ≡ some x)
    × Lost ⦃fl = milli⦄ policy0 x.0 x.1
loss_event_total_example = loss_event_total ⦃fl = milli⦄ policy0 lossy selector0-IsValid

-- The policy after a fast-path demote, from rung 1 to rung 0.
abbrev lowered : Policy ℤ
lowered = or_else (step ⦃fl = milli⦄ policy0 (loss lossy)) policy0

step-lowered : step ⦃fl = milli⦄ policy0 (loss lossy) ≡ some lowered
unfolding step loss_event select Selector.start_with milli
step-lowered = refl

rung_lowered : lowered.leading.current_mcs < policy0.leading.current_mcs
unfolding step loss_event select Selector.start_with milli
rung_lowered = ground arith

demote_cools_example :
    (r : Policy ℤ) × (run ⦃fl = milli⦄ lowered (window clean ∷ loss lossy ∷ window clean ∷ [])
      ≡ some r)
    × (lowered.leading.current_mcs ≤ r.leading.current_mcs)
demote_cools_example =
    demote_cools ⦃fl = milli⦄ policy0 lowered (loss lossy)
      (window clean ∷ loss lossy ∷ window clean ∷ []) selector0-IsValid step-lowered rung_lowered
      (ground arith)

-- A policy that has been clean for a while: the next tick explores rung 2.
abbrev settled : Policy ℤ
settled = record policy0 { leading = record selector0 { clean_dwell = 40 } }

abbrev after : Option (Policy ℤ × Decision ℤ) → Policy ℤ × Decision ℤ
after none = (policy0, record { timestamp = num 0; mcs = 0; reason = [] })
after (some x) = x

abbrev explored : Policy ℤ × Decision ℤ
explored = after (tick ⦃fl = milli⦄ settled clean)

tick_explored : tick ⦃fl = milli⦄ settled clean ≡ some (explored.0, explored.1)
unfolding tick prepare finish select Selector.start_with milli LearnedPrior.snr_rung_unviable
    Knee.rung_unviable LearnedPrior.snr_predictive_rung_unviable Knee.eff_knees Knee.new
    Selector.emergency_active Selector.suppressed get? remove Selector.snapback_target put
tick_explored = refl

rung2 : explored.0.leading.current_mcs ≡ 2
unfolding tick prepare finish select Selector.start_with milli LearnedPrior.snr_rung_unviable
    Knee.rung_unviable LearnedPrior.snr_predictive_rung_unviable Knee.eff_knees Knee.new
    Selector.emergency_active Selector.suppressed get? remove Selector.snapback_target put lsq_slope
    LearnedPrior.snr_rung_confident Knee.rung_confident
rung2 = refl

rung_explored : settled.leading.current_mcs < explored.0.leading.current_mcs
unfolding Selector.start_with
rung_explored = omega (arith, rung2)

tick_raise_example : Opened ⦃fl = milli⦄ settled clean explored.0.leading.current_mcs
tick_raise_example =
    tick_raise ⦃fl = milli⦄ settled clean explored.0 explored.1
      (record { in_cap = selector0-IsValid.in_cap; has_snr = selector0-IsValid.has_snr })
      tick_explored rung_explored
