-- ===== src/Dynlink/Selector/Tests.antt =====
-- Runs of the selector in fixed-point numbers, and the properties at them.
use fpvd.Prelude.{◌+◌, ◌≡◌, ◌≤◌, refl, true, false, Option, none, some, arith}
use fpvd.Prelude.Int.{ℤ, pos}
use fpvd.Prelude.Fixed.{milli}
use fpvd.Prelude.Dict.{get?, put}
use fpvd.Dynlink.Selector.{
  LeadingSelector, start_with, on_trial, flap_backoff_ms, effective_flap_level, emergency_active,
  charge_flap, suppressed, raw_min_clear,
}
use fpvd.Dynlink.Selector.Select.{Inputs, select, begin}
use fpvd.Dynlink.Selector.Bounds.{IsValid}
use fpvd.Dynlink.Selector.Promote.{Selected, select_total}
use fpvd.Dynlink.Selector.Damper.{Charged, select_charges}
use fpvd.Dynlink.Selector.Damped.{flap_damped}
use fpvd.Dynlink.Defaults.{selector_config}
use fpvd.Dynlink.Samples.{selector0, selector0-IsValid, inputs_at}

abbrev calm : Inputs ℤ
calm = inputs_at 100_000 (some (pos 25_000)) false true false

select_total_example :
    (t : LeadingSelector ℤ) × (select ⦃fl = milli⦄ selector0 calm ≡ some t)
    × IsValid t
    × Selected ⦃fl = milli⦄ selector0 calm t
select_total_example = select_total ⦃fl = milli⦄ selector0 calm selector0-IsValid

-- Rung 3, entered just now and on trial.
abbrev trying : LeadingSelector ℤ
trying = record selector0 { current_mcs = 3; trial_rung = some 3; trial_until_ms = pos 10_000_000 }

trying-IsValid : IsValid trying
unfolding start_with
trying-IsValid = record { in_cap = ground arith; has_snr = tt }

abbrev breach : Inputs ℤ
breach = inputs_at 5_000_000 (some (pos 25_000)) true true false

trying-on_trial : on_trial ⦃fl = milli⦄ trying 3 (pos 5_000_000) ≡ true
unfolding milli
trying-on_trial = refl

select_charges_example :
    (t : LeadingSelector ℤ) × (select ⦃fl = milli⦄ trying breach ≡ some t)
    × Charged ⦃fl = milli⦄ trying breach t
select_charges_example =
    select_charges ⦃fl = milli⦄ trying breach trying-IsValid (ground arith) refl refl
      trying-on_trial

-- Half a second later, with the rung's damper running for two seconds.
abbrev again : Inputs ℤ
again = inputs_at 5_500_000 (some (pos 25_000)) false true true

abbrev or_trying : Option (LeadingSelector ℤ) → LeadingSelector ℤ
or_trying none = trying
or_trying (some t) = t

abbrev charged : LeadingSelector ℤ
charged = or_trying (select ⦃fl = milli⦄ trying breach)

abbrev waited : LeadingSelector ℤ
waited = or_trying (select ⦃fl = milli⦄ charged again)

charged-again : select ⦃fl = milli⦄ charged again ≡ some waited
unfolding select start_with milli emergency_active charge_flap suppressed get? put flap_backoff_ms
    effective_flap_level
charged-again = refl

select-charged : select ⦃fl = milli⦄ trying breach ≡ some charged
unfolding select start_with milli
select-charged = refl

early :
    milli.le
      (milli.add (pos 5_000_000) (
        flap_backoff_ms ⦃fl = milli⦄
          (selector_config ⦃fl = milli⦄)
          (effective_flap_level ⦃fl = milli⦄ trying 3 (pos 5_000_000) + 1)))
      (pos 5_500_000)
    ≡ false
unfolding select start_with milli emergency_active charge_flap suppressed get? put flap_backoff_ms
    effective_flap_level
early = refl

not_clear : raw_min_clear ⦃fl = milli⦄ (begin ⦃fl = milli⦄ charged again) 3 ≡ false
unfolding select start_with milli emergency_active charge_flap suppressed get? put flap_backoff_ms
    effective_flap_level begin
not_clear = refl

flap_damped_example : waited.current_mcs ≤ charged.current_mcs
unfolding start_with
flap_damped_example =
    flap_damped ⦃fl = milli⦄ trying breach charged again waited trying-IsValid (ground arith) refl
      refl trying-on_trial select-charged charged-again early refl not_clear
