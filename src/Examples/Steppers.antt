-- ===== src/Examples/Steppers.antt =====
-- Runs of the time steppers of source/simulation/stepper on concrete inputs, in fixed point.
use dgswemv.Prelude.{
  ℕ, zero, suc, ◌+◌, ◌*◌, ◌/◌, ◌%◌, ◌<◌, ◌≡◌, ◌≢◌, refl, some, List, [], ◌∷◌, arith, get_or,
  get_elem?,
}
use dgswemv.Double.{fixed_double, one_of, almost_equal}
use dgswemv.Stepper.Schemes.Low.{ssp_2_2}
use dgswemv.Stepper.Coefficients.{build_tables, find_scheme, initialize_coefficients, zero_of}
use dgswemv.Stepper.Explicit
use dgswemv.Stepper.Explicit.{StepperInput, EssprkStepper, save, load}
use dgswemv.Stepper.Explicit.Counters.{advance_times}
use dgswemv.Stepper.Explicit.Runs.{counters-advance, load-save}
use dgswemv.Stepper.StageTimes.{drk-one_stuck}
use dgswemv.Stepper.Consistency.{IsShuOsher, find_scheme-IsShuOsher}
use dgswemv.Stepper.Update.{Vectors, StageState, update_state, sum_stages, combination}
use dgswemv.Stepper.Update.Frame.{IsSummed, update_state-IsSummed, update_state-last}
use dgswemv.Stepper.Strang.{Stepping}
use dgswemv.Stepper.Strang
use dgswemv.Stepper.Strang.Cycle.{times_of, IsCycle, first_half, strang_cycle, updater-run}
use dgswemv.Stepper.Implicit
use dgswemv.Stepper.Implicit.{ImplicitStepper, implicit_run, time_after}

abbrev two_stage : StepperInput ℕ
two_stage = record { dt = one_of; order = 2; nstages = 2; ramp_duration = one_of }

abbrev new_stepper : EssprkStepper ℕ
new_stepper = record {
  tables = build_tables 2 ssp_2_2;
  order = 2;
  nstages = 2;
  dt = one_of;
  step = 0;
  stage = 0;
  timestamp = 0;
  t = 0;
  ramp_duration = one_of;
  ramp = 0;
}

new_stepper-construct : Explicit.construct two_stage ≡ some new_stepper
unfolding Explicit.construct initialize_coefficients find_scheme almost_equal
new_stepper-construct = refl

counters-advance_example :
    ((advance_times 5 new_stepper).timestamp ≡ 5)
    × ((advance_times 5 new_stepper).step ≡ 5 / 2)
    × ((advance_times 5 new_stepper).stage ≡ 5 % 2)
    × ((advance_times 5 new_stepper).stage < 2)
counters-advance_example =
    counters-advance two_stage 5 new_stepper (omega arith) new_stepper-construct

load-save_example : load (save (advance_times 3 new_stepper)) ≡ some (advance_times 3 new_stepper)
load-save_example = load-save two_stage 2 new_stepper (omega arith) new_stepper-construct

two_stage_tables : initialize_coefficients {D = ℕ} 2 2 ≡ some (build_tables 2 ssp_2_2)
unfolding initialize_coefficients find_scheme
two_stage_tables = refl

drk-one_stuck_example : get_or (build_tables {D = ℕ} 2 ssp_2_2).drk 1 zero_of ≡ 0
drk-one_stuck_example =
    drk-one_stuck {D = ℕ} 2 2 (build_tables 2 ssp_2_2) (omega arith) two_stage_tables

find_scheme-IsShuOsher_example : IsShuOsher 2 ssp_2_2
unfolding find_scheme
find_scheme-IsShuOsher_example = find_scheme-IsShuOsher 2 2 ssp_2_2 refl

abbrev numbers : Vectors ℕ ℕ
numbers = record { add = ◌+◌; scale = λ a v. a * v / one_of; zeros = λ _. 0 }

abbrev stage_states : List (StageState ℕ)
stage_states =
    record { q = 8; solution = 2 }
    ∷ record { q = 5; solution = 1 }
    ∷ record { q = 7; solution = 0 }
    ∷ []

abbrev last_stage : EssprkStepper ℕ
last_stage = record new_stepper { stage = 1 }

update_state-IsSummed_example :
    IsSummed numbers new_stepper stage_states
      (record { q = 5; solution = 1 })
      1
      (update_state numbers new_stepper stage_states)
update_state-IsSummed_example =
    update_state-IsSummed numbers new_stepper stage_states (record { q = 5; solution = 1 }) refl
      (omega arith)

first_stage_values :
    update_state numbers new_stepper stage_states
    ≡ record { q = 8; solution = 2 }
      ∷ record { q = 10; solution = 1 }
      ∷ record { q = 7; solution = 0 }
      ∷ []
unfolding update_state sum_stages build_tables ssp_2_2
first_stage_values = refl

update_state-last_example :
    (get_elem? (update_state numbers last_stage stage_states) 0
      ≡ some (record { q = combination numbers last_stage stage_states 2 0; solution = 2 }))
    × (get_elem? (update_state numbers last_stage stage_states) 2
        ≡ some (record { q = 8; solution = 0 }))
    × ((k : ℕ)
        → 0 ≢ k
        → 2 ≢ k
        → get_elem? (update_state numbers last_stage stage_states) k ≡ get_elem? stage_states k)
update_state-last_example =
    update_state-last numbers last_stage stage_states (record { q = 8; solution = 2 })
      (record { q = 7; solution = 0 }) refl refl refl

-- A counter modulo three.
abbrev mod_three : Stepping ℕ
mod_three = record { advance = suc; stage = λ n. n % 3 }

abbrev mod_two : Stepping ℕ
mod_two = record { advance = suc; stage = λ n. n % 2 }

inside_three : (start k : ℕ) → start % 3 ≡ 0 → 0 < k → k < 3 → times_of suc k start % 3 ≢ 0
inside_three start zero e p lt = absurd (omega arith)
inside_three start (suc zero) e p lt = omega arith
inside_three start (suc (suc zero)) e p lt = omega arith
inside_three start (suc (suc (suc k))) e p lt = absurd (omega arith)

IsCycle-three : (start : ℕ) → start % 3 ≡ 0 → IsCycle mod_three 3 start
IsCycle-three start e = record {
  positive = omega arith;
  inside = λ k p lt. inside_three start k e p lt;
  wraps = omega arith;
}

inside_two : (k : ℕ) → 0 < k → k < 2 → times_of suc k 0 % 2 ≢ 0
inside_two zero p lt = absurd (omega arith)
inside_two (suc zero) p lt = omega arith
inside_two (suc (suc k)) p lt = absurd (omega arith)

IsCycle-two : IsCycle mod_two 2 0
IsCycle-two = record { positive = omega arith; inside = inside_two; wraps = omega arith }

strang_cycle_example :
    times_of (Strang.advance mod_three mod_two) 8 (first_half mod_three mod_two 0 0)
    ≡ first_half mod_three mod_two 6 2
strang_cycle_example =
    strang_cycle mod_three mod_two 0 0 3 2 (IsCycle-three 0 refl) (IsCycle-three 3 refl) IsCycle-two

updater-run_example :
    let s =
      times_of (Strang.advance mod_three mod_two) 4 (Strang.construct mod_three mod_two suc 0 0) in
    Strang.updater mod_three mod_two s ≡ some s.current
updater-run_example = updater-run mod_three mod_two suc 0 0 4

abbrev new_implicit : ImplicitStepper ℕ
new_implicit = record {
  order = 2;
  nstages = 1;
  dt = one_of;
  theta = one_of / 2;
  step = 0;
  stage = 0;
  timestamp = 0;
  t = 0;
  ramp_duration = one_of;
  ramp = 0;
}

new_implicit-construct : Implicit.construct two_stage ≡ some new_implicit
unfolding Implicit.construct almost_equal
new_implicit-construct = refl

implicit_run_example :
    let u = Implicit.advance_times 4 new_implicit in
    (u.step ≡ 4)
    × (u.timestamp ≡ 4)
    × (u.stage ≡ 0)
    × (u.nstages ≡ 1)
    × (u.t ≡ time_after 4 0 one_of)
implicit_run_example = implicit_run two_stage new_implicit 4 (omega arith) new_implicit-construct
