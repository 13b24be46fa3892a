-- ===== src/Stepper/Implicit.antt =====
-- ImplicitStepper (source/simulation/stepper/implicit_stepper.hpp). `uint` counters wrap at 2^32.
use dgswemv.Prelude.{
  ℕ, zero, suc, ◌+◌, ◌%◌, ◌≡◌, ◌&&◌, Option, none, some, ◌==◌, if◌then◌else◌, arith, ◌<◌, ◌^◌,
}
use native.Mathlib.Nat.{mod-eq_of_lt, mod-one}
use dgswemv.Double.{Double, almost_equal}
use dgswemv.Stepper.Explicit.{uint_mod, StepperInput, ramp_at}

pub record ImplicitStepper (D : Type 0) : Type 0 where
  pub order : ℕ
  pub nstages : ℕ
  pub dt : D
  pub theta : D
  pub step : ℕ
  pub stage : ℕ
  pub timestamp : ℕ
  pub t : D
  pub ramp_duration : D
  pub ramp : D

module _ {D : Type 0} ⦃d : Double D⦄ where
  open d use {of_ratio, plus}

  -- The method chosen by `order` and `nstages`: the stages that it uses and its `theta`; `none` is
  -- the exception.
  unfoldable pub find_method : ℕ → ℕ → Option (ℕ × D)
  find_method order nstages =
      if order == 1 && nstages == 1
      then some (nstages, of_ratio 0 1)
      else if order == 2 && nstages == 1
      then some (nstages, of_ratio 1 2)
      else if order == 2 && nstages == 2
      then some (1, of_ratio 1 2)
      else none

  unfoldable pub construct : StepperInput D → Option (ImplicitStepper D)
  unfolding find_method
  construct input = elim (find_method input.order input.nstages) [
    | none ↦ none
    | some (nstages, theta) ↦ some (record {
      order = input.order;
      nstages = nstages;
      dt = input.dt;
      theta = theta;
      step = 0;
      stage = 0;
      timestamp = 0;
      t = of_ratio 0 1;
      ramp_duration = input.ramp_duration;
      ramp = if almost_equal input.ramp_duration (of_ratio 0 1) then of_ratio 1 1 else of_ratio 0 1;
    })
  ]

  unfoldable pub set_dt : D → ImplicitStepper D → ImplicitStepper D
  set_dt dt stepper = record stepper { dt = dt }

  unfoldable pub count_stage : ImplicitStepper D → ImplicitStepper D
  count_stage s =
      let stage' = (s.stage + 1) % uint_mod % s.nstages in
      let s' = record s { stage = stage'; timestamp = (s.timestamp + 1) % uint_mod } in
      if stage' == 0 then record s' { t = plus s.t s.dt; step = (s.step + 1) % uint_mod } else s'

  -- `operator++`; the time at the current stage is `t`.
  unfoldable pub advance : ImplicitStepper D → ImplicitStepper D
  unfolding count_stage
  advance s =
      let s' = count_stage s in
      if almost_equal s'.ramp_duration (of_ratio 0 1)
      then s'
      else record s' { ramp = ramp_at s'.t s'.ramp_duration }

  -- One stage: every increment completes a step.
  pub record IsOneStage (s : ImplicitStepper D) : Type 0 where
    pub nstages_eq : s.nstages ≡ 1
    pub stage_eq : s.stage ≡ 0
    pub step_eq : s.step ≡ s.timestamp

  construct-IsOneStage :
      (input : StepperInput D) (s : ImplicitStepper D)
      → construct input ≡ some s
      → IsOneStage s × (s.timestamp ≡ 0) × (s.order ≡ input.order)
  unfolding construct
  construct-IsOneStage input s h = ground arith

  count_stage_lem :
      (s : ImplicitStepper D)
      → s.timestamp + 1 < 2 ^ 32
      → IsOneStage s
      → IsOneStage (count_stage s)
        × ((count_stage s).timestamp ≡ s.timestamp + 1)
        × ((count_stage s).t ≡ plus s.t s.dt)
        × ((count_stage s).dt ≡ s.dt)
  unfolding count_stage
  count_stage_lem s h one = ground (arith, mod-eq_of_lt h, mod-one ((s.stage + 1) % 2 ^ 32))

  advance_lem :
      (s : ImplicitStepper D)
      → s.timestamp + 1 < 2 ^ 32
      → IsOneStage s
      → IsOneStage (advance s)
        × ((advance s).timestamp ≡ s.timestamp + 1)
        × ((advance s).t ≡ plus s.t s.dt)
        × ((advance s).dt ≡ s.dt)
  unfolding advance
  advance_lem s h one = ground (arith, count_stage_lem s h one)

  -- `k` increments.
  unfoldable pub advance_times : ℕ → ImplicitStepper D → ImplicitStepper D
  advance_times zero s = s
  advance_times (suc k) s = advance (advance_times k s)

  -- The time after `k` steps of size `dt`, as the code sums it.
  unfoldable pub time_after : ℕ → D → D → D
  time_after zero t dt = t
  time_after (suc k) t dt = plus (time_after k t dt) dt

  advance_times_lem :
      (s : ImplicitStepper D) (k : ℕ)
      → s.timestamp + k < 2 ^ 32
      → IsOneStage s
      → let u = advance_times k s in
        IsOneStage u
        × (u.timestamp ≡ s.timestamp + k)
        × (u.t ≡ time_after k s.t s.dt)
        × (u.dt ≡ s.dt)
  unfolding advance_times time_after
  advance_times_lem s zero h one = ground arith
  advance_times_lem s (suc k) h one =
      let (one', stamp, time, same) = advance_times_lem s k (omega arith) one in
      ground (arith, advance_lem (advance_times k s) (omega arith) one')

  -- Every implicit stepper that can be constructed has one stage: after `k` increments, without
  -- wrap-around, both its step and its timestamp are `k`, its stage is 0, and its time is the sum
  -- of `k` steps of `dt`.
  pub implicit_run :
      (input : StepperInput D) (s : ImplicitStepper D) (k : ℕ)
      → k < 2 ^ 32
      → construct input ≡ some s
      → let u = advance_times k s in
        (u.step ≡ k)
        × (u.timestamp ≡ k)
        × (u.stage ≡ 0)
        × (u.nstages ≡ 1)
        × (u.t ≡ time_after k s.t s.dt)
  implicit_run input s k h e =
      let (one, start, _) = construct-IsOneStage input s e in
      ground (arith, advance_times_lem s k (omega arith) one)
