-- ===== src/Stepper/Explicit/Runs.antt =====
-- Runs of ESSPRKStepper from its constructor, and its archive
-- (source/simulation/stepper/explicit_ssp_rk_stepper.hpp).
use native.Mathlib.Nat.{mod-lt, zero-mod, zero-div}
use dgswemv.Prelude.{
  ℕ, zero, suc, ◌+◌, ◌/◌, ◌%◌, ◌^◌, ◌<◌, ◌≡◌, ◌∙◌, some, inl, inr, arith, Option-cases, Bool-cases,
}
use dgswemv.Double.{Double, almost_equal}
use dgswemv.Stepper.Coefficients.{Tables, find_scheme, initialize_coefficients}
use dgswemv.Stepper.Explicit.{
  StepperInput, EssprkStepper, construct, time_at_current_stage, update_ramp, advance, save, load,
}
use dgswemv.Stepper.Explicit.Counters.{
  IsCounted, IsRamped, IsPlain, advance_times, advance-IsCounted, advance-IsFixed,
  timestamp-advance, IsRamped-IsPlain, advance-IsRamped,
}

module _ {D : Type 0} ⦃d : Double D⦄ where
  -- The invariant of a run of `k` increments.
  record IsRun (input : StepperInput D) (k : ℕ) (s : EssprkStepper D) : Type 0 where
    counted : IsCounted s
    stamp : s.timestamp ≡ k
    stages : s.nstages ≡ input.nstages
    plain : IsPlain s

  initialize_coefficients-pos :
      (nstages order : ℕ) (tables : Tables D)
      → initialize_coefficients nstages order ≡ some tables
      → 0 < nstages
  unfolding initialize_coefficients find_scheme
  initialize_coefficients-pos zero order tables h = cc
  initialize_coefficients-pos (suc n) order tables h = omega arith

  construct-IsRun :
      (input : StepperInput D) (s : EssprkStepper D) → construct input ≡ some s → IsRun input 0 s
  unfolding construct
  construct-IsRun input s h =
      elim (Option-cases (initialize_coefficients {D = D} input.nstages input.order)) [
        | inl e ↦ ground arith
        | inr (tables, e) ↦ ground (
          arith,
          initialize_coefficients-pos input.nstages input.order tables e,
          zero-mod input.nstages,
          zero-div input.nstages,
        )
      ]

  load-save_of_ramped : (s : EssprkStepper D) → IsCounted s → IsRamped s → load (save s) ≡ some s
  unfolding load save update_ramp time_at_current_stage
  load-save_of_ramped s c r = elim (Bool-cases (almost_equal s.ramp_duration (d.of_ratio 0 1))) [
    | inl e ↦ ground (arith, c.tables_eq)
    | inr e ↦ ground (arith, c.tables_eq)
  ]

  advance-IsRun :
      (input : StepperInput D) (k : ℕ) (s : EssprkStepper D)
      → suc k < 2 ^ 32
      → IsRun input k s
      → IsRun input (suc k) (advance s)
  advance-IsRun input k s h r =
      let small : s.timestamp + 1 < 2 ^ 32 = omega arith in
      record {
        counted = advance-IsCounted s small r.counted;
        stamp = omega (arith, timestamp-advance s small);
        stages = (advance-IsFixed s).nstages_eq ∙ r.stages;
        plain = IsRamped-IsPlain (advance s) (advance-IsRamped s r.plain);
      }

  run :
      (input : StepperInput D) (k : ℕ) (s : EssprkStepper D)
      → k < 2 ^ 32
      → construct input ≡ some s
      → IsRun input k (advance_times k s)
  unfolding advance_times
  run input zero s h e = construct-IsRun input s e
  run input (suc k) s h e =
      advance-IsRun input k (advance_times k s) h (run input k s (omega arith) e)

  -- After `k` increments of a new stepper, without wrap-around of the timestamp, the timestamp is
  -- `k`, the step is `k / nstages` and the stage is `k % nstages`.
  pub counters-advance :
      (input : StepperInput D) (k : ℕ) (s : EssprkStepper D)
      → k < 2 ^ 32
      → construct input ≡ some s
      → ((advance_times k s).timestamp ≡ k)
        × ((advance_times k s).step ≡ k / input.nstages)
        × ((advance_times k s).stage ≡ k % input.nstages)
        × ((advance_times k s).stage < input.nstages)
  counters-advance input k s h e =
      let r = run input k s h e in ground (arith, mod-lt k r.counted.positive)

  -- Once a new stepper was incremented, without wrap-around of the timestamp, loading what `save`
  -- archives gives the same stepper back: step, coefficients and ramp, which are not archived, are
  -- recomputed as they were.
  pub load-save :
      (input : StepperInput D) (k : ℕ) (s : EssprkStepper D)
      → suc k < 2 ^ 32
      → construct input ≡ some s
      → load (save (advance_times (suc k) s)) ≡ some (advance_times (suc k) s)
  unfolding advance_times
  load-save input k s h e =
      let before = run input k s (omega arith) e in
      load-save_of_ramped (advance (advance_times k s))
        (advance-IsRun input k (advance_times k s) h before).counted
        (advance-IsRamped (advance_times k s) before.plain)
