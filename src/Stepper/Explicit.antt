-- ===== src/Stepper/Explicit.antt =====
-- ESSPRKStepper (source/simulation/stepper/explicit_ssp_rk_stepper.hpp and .cpp): the state of the
-- explicit stepper, its increment, its archive and the update of an element's state. `uint` counters
-- wrap at 2^32.
pub mod Counters
pub mod Runs
use dgswemv.Prelude.{ℕ, ◌+◌, ◌/◌, ◌%◌, ◌^◌, Option, none, some, ◌==◌, if◌then◌else◌, get_or}
use dgswemv.Double.{Double, almost_equal}
use dgswemv.Stepper.Coefficients.{Tables, initialize_coefficients, zero_of}

abbrev pub uint_mod : ℕ
uint_mod = 2 ^ 32

-- The fields of `StepperInput` that the stepper reads.
pub record StepperInput (D : Type 0) : Type 0 where
  pub dt : D
  pub order : ℕ
  pub nstages : ℕ
  pub ramp_duration : D

pub record EssprkStepper (D : Type 0) : Type 0 where
  pub tables : Tables D
  pub order : ℕ
  pub nstages : ℕ
  pub dt : D
  pub step : ℕ
  pub stage : ℕ
  pub timestamp : ℕ
  pub t : D
  pub ramp_duration : D
  pub ramp : D

-- What `save` writes to the archive, in its order.
pub record Archive (D : Type 0) : Type 0 where
  pub order : ℕ
  pub nstages : ℕ
  pub dt : D
  pub stage : ℕ
  pub timestamp : ℕ
  pub t : D
  pub ramp_duration : D

module _ {D : Type 0} ⦃d : Double D⦄ where
  open d use {of_ratio, plus, times, quotient, tanh}

  unfoldable pub construct : StepperInput D → Option (EssprkStepper D)
  construct input = elim (initialize_coefficients input.nstages input.order) [
    | none ↦ none
    | some tables ↦ some (record {
      tables = tables;
      order = input.order;
      nstages = input.nstages;
      dt = input.dt;
      step = 0;
      stage = 0;
      timestamp = 0;
      t = of_ratio 0 1;
      ramp_duration = input.ramp_duration;
      ramp = if almost_equal input.ramp_duration (of_ratio 0 1) then of_ratio 1 1 else of_ratio 0 1;
    })
  ]

  unfoldable pub set_dt : D → EssprkStepper D → EssprkStepper D
  set_dt dt stepper = record stepper { dt = dt }

  -- `t + dt * drk[stage]`
  unfoldable pub time_at_current_stage : EssprkStepper D → D
  time_at_current_stage s = plus s.t (times s.dt (get_or s.tables.drk s.stage zero_of))

  -- `tanh(2 * (time / 86400) / ramp_duration)`
  unfoldable pub ramp_at : D → D → D
  ramp_at time ramp_duration =
      tanh (quotient (times (of_ratio 2 1) (quotient time (of_ratio 86400 1))) ramp_duration)

  -- `if (!almost_equal(ramp_duration, 0)) ramp = …`
  unfoldable pub update_ramp : EssprkStepper D → EssprkStepper D
  update_ramp s =
      if almost_equal s.ramp_duration (of_ratio 0 1)
      then s
      else record s { ramp = ramp_at (time_at_current_stage s) s.ramp_duration }

  -- `++stage; ++timestamp; stage = stage % nstages; if (stage == 0) …`
  unfoldable pub count_stage : EssprkStepper D → EssprkStepper D
  count_stage s =
      let stage' = (s.stage + 1) % uint_mod % s.nstages in
      let s' = record s { stage = stage'; timestamp = (s.timestamp + 1) % uint_mod } in
      if stage' == 0 then record s' { t = plus s.t s.dt; step = (s.step + 1) % uint_mod } else s'

  -- `operator++`
  unfoldable pub advance : EssprkStepper D → EssprkStepper D
  unfolding count_stage update_ramp
  advance s = update_ramp (count_stage s)

  unfoldable pub save : EssprkStepper D → Archive D
  save s = record {
    order = s.order;
    nstages = s.nstages;
    dt = s.dt;
    stage = s.stage;
    timestamp = s.timestamp;
    t = s.t;
    ramp_duration = s.ramp_duration;
  }

  -- `load` into a stepper made by the default constructor; `none` is the exception of
  -- `InitializeCoefficients`.
  -- The stepper that `load` fills in, with the ramp that its last branch stores.
  abbrev pub restored : Archive D → Tables D → EssprkStepper D
  restored a tables = record {
    tables = tables;
    order = a.order;
    nstages = a.nstages;
    dt = a.dt;
    step = a.timestamp / a.nstages;
    stage = a.stage;
    timestamp = a.timestamp;
    t = a.t;
    ramp_duration = a.ramp_duration;
    ramp = of_ratio 1 1;
  }

  unfoldable pub load : Archive D → Option (EssprkStepper D)
  unfolding update_ramp
  load a = elim (initialize_coefficients a.nstages a.order) [
    | none ↦ none
    | some tables ↦ some (update_ramp (restored a tables))
  ]
