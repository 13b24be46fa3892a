-- ===== src/Stepper/Explicit/Counters.antt =====
-- The counters, the ramp and the archive of ESSPRKStepper
-- (source/simulation/stepper/explicit_ssp_rk_stepper.hpp).
use dgswemv.Prelude.{
  ℕ, zero, suc, ◌+◌, ◌/◌, ◌%◌, ◌^◌, ◌<◌, ◌≡◌, refl, true, some, inl, inr, arith, if◌then◌else◌,
  Bool-cases, ◌∙◌,
}
use native.Mathlib.Nat.{mod-le, mod-eq_of_lt, mod-add-mod}
use dgswemv.Double.{Double, almost_equal}
use dgswemv.Stepper.Coefficients.{initialize_coefficients}
use dgswemv.Stepper.Explicit.{
  EssprkStepper, time_at_current_stage, ramp_at, update_ramp, count_stage, advance,
}

next_mod : (t n : ℕ) → 0 < n → t + 1 < 2 ^ 32 → (t % n + 1) % 2 ^ 32 % n ≡ (t + 1) % n
next_mod t n p h =
    let small : t % n + 1 < 2 ^ 32 = omega (arith, mod-le t n) in
    rw (mod-eq_of_lt small) (mod-add-mod t n 1)

next_div : (t n : ℕ) → 0 < n → (t + 1) % n ≡ 0 → t / n + 1 ≡ (t + 1) / n
next_div t n p h = grind arith

same_div : (t n : ℕ) → 0 < n → 0 < (t + 1) % n → t / n ≡ (t + 1) / n
same_div t n p h = grind arith

module _ {D : Type 0} ⦃d : Double D⦄ where
  open d use {of_ratio}

  -- The counters agree with the number of stages done, and the tables with the scheme.
  pub record IsCounted (s : EssprkStepper D) : Type 0 where
    pub positive : 0 < s.nstages
    pub stage_eq : s.stage ≡ s.timestamp % s.nstages
    pub step_eq : s.step ≡ s.timestamp / s.nstages
    pub tables_eq : initialize_coefficients s.nstages s.order ≡ some s.tables

  -- The ramp is the one of the present stage time, or 1 without a ramp.
  abbrev pub IsRamped : EssprkStepper D → Type 0
  IsRamped s = s.ramp ≡ (
      if almost_equal s.ramp_duration (of_ratio 0 1)
      then of_ratio 1 1
      else ramp_at (time_at_current_stage s) s.ramp_duration)

  count_stage-IsCounted :
      (s : EssprkStepper D) → s.timestamp + 1 < 2 ^ 32 → IsCounted s → IsCounted (count_stage s)
  unfolding count_stage
  count_stage-IsCounted s h c = ground (
    arith,
    next_mod s.timestamp s.nstages,
    next_div s.timestamp s.nstages,
    same_div s.timestamp s.nstages,
    mod-eq_of_lt h,
  )

  update_ramp-IsCounted : (s : EssprkStepper D) → IsCounted s → IsCounted (update_ramp s)
  unfolding update_ramp
  update_ramp-IsCounted s c = ground arith

  pub advance-IsCounted :
      (s : EssprkStepper D) → s.timestamp + 1 < 2 ^ 32 → IsCounted s → IsCounted (advance s)
  unfolding advance
  advance-IsCounted s h c = update_ramp-IsCounted (count_stage s) (count_stage-IsCounted s h c)

  -- `k` increments.
  unfoldable pub advance_times : ℕ → EssprkStepper D → EssprkStepper D
  advance_times zero s = s
  advance_times (suc k) s = advance (advance_times k s)

  pub timestamp-advance :
      (s : EssprkStepper D) → s.timestamp + 1 < 2 ^ 32 → (advance s).timestamp ≡ s.timestamp + 1
  unfolding advance count_stage update_ramp
  timestamp-advance s h = ground (arith, mod-eq_of_lt h)

  -- What an increment never changes.
  pub record IsFixed (s u : EssprkStepper D) : Type 0 where
    pub nstages_eq : u.nstages ≡ s.nstages
    pub order_eq : u.order ≡ s.order
    pub dt_eq : u.dt ≡ s.dt
    pub tables_eq : u.tables ≡ s.tables
    pub ramp_duration_eq : u.ramp_duration ≡ s.ramp_duration

  count_stage-IsFixed : (s : EssprkStepper D) → IsFixed s (count_stage s)
  unfolding count_stage
  count_stage-IsFixed s = ground arith

  update_ramp-IsFixed : (s : EssprkStepper D) → IsFixed s (update_ramp s)
  unfolding update_ramp
  update_ramp-IsFixed s = ground arith

  pub advance-IsFixed : (s : EssprkStepper D) → IsFixed s (advance s)
  unfolding advance
  advance-IsFixed s = ground (arith, count_stage-IsFixed s, update_ramp-IsFixed (count_stage s))

  ramp-count_stage : (s : EssprkStepper D) → (count_stage s).ramp ≡ s.ramp
  unfolding count_stage
  ramp-count_stage s = ground arith

  -- The ramp is 1 unless there is a ramp duration.
  abbrev pub IsPlain : EssprkStepper D → Type 0
  IsPlain s = almost_equal s.ramp_duration (of_ratio 0 1) ≡ true → s.ramp ≡ of_ratio 1 1

  update_ramp-IsRamped : (s : EssprkStepper D) → IsPlain s → IsRamped (update_ramp s)
  unfolding update_ramp time_at_current_stage
  update_ramp-IsRamped s h = elim (Bool-cases (almost_equal s.ramp_duration (of_ratio 0 1))) [
    | inl e ↦ rw e (rw e (h e))
    | inr e ↦ rw e (rw e refl)
  ]

  pub IsRamped-IsPlain : (s : EssprkStepper D) → IsRamped s → IsPlain s
  IsRamped-IsPlain s r e = rw e at r

  pub advance-IsRamped : (s : EssprkStepper D) → IsPlain s → IsRamped (advance s)
  unfolding advance
  advance-IsRamped s h =
      update_ramp-IsRamped (count_stage s)
        (λ e. ramp-count_stage s ∙ h (rw (count_stage-IsFixed s).ramp_duration_eq at e))
