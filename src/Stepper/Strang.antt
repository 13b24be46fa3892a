-- ===== src/Stepper/Strang.antt =====
-- SecondStrangStepper (source/simulation/stepper/second_strang_stepper.hpp) over two steppers, of
-- which it uses the increment, the stage and the step size.
pub mod Cycle
use dgswemv.Prelude.{ℕ, Option, none, some, Bool, true, false, not, ◌&&◌, ◌==◌, if◌then◌else◌}

-- What the template calls of its two parameters.
pub record Stepping (S : Type 0) : Type 0 where
  pub advance : S → S
  pub stage : S → ℕ

-- The stepper that `current` points to.
pub data Current : Type 0 where
  at_first at_second : Current

pub record StrangStepper (First Second : Type 0) : Type 0 where
  pub first : First
  pub second : Second
  pub done_first : Bool
  pub done_second : Bool
  pub current : Current

module _ {First Second : Type 0} (one : Stepping First) (two : Stepping Second) where
  -- The constructor, once both steppers are built; `halve` is `SetDT(GetDT() / 2.0)`.
  unfoldable pub construct : (halve : First → First) → First → Second → StrangStepper First Second
  construct halve first second = record {
    first = halve first;
    second = second;
    done_first = false;
    done_second = false;
    current = at_first;
  }

  -- The move assignment: the flags and `current` are reset.
  unfoldable pub assign :
      StrangStepper First Second → StrangStepper First Second → StrangStepper First Second
  assign s rhs = record s {
    first = rhs.first;
    second = rhs.second;
    done_first = false;
    done_second = false;
    current = at_first;
  }

  -- `current->GetStage()`
  unfoldable pub current_stage : StrangStepper First Second → ℕ
  current_stage s = elim s.current [ at_first ↦ one.stage s.first | at_second ↦ two.stage s.second ]

  -- `++(*current)`
  unfoldable pub advance_current : StrangStepper First Second → StrangStepper First Second
  advance_current s = elim s.current [
    | at_first ↦ record s { first = one.advance s.first }
    | at_second ↦ record s { second = two.advance s.second }
  ]

  -- The hand-over between the half steps.
  unfoldable pub switch : StrangStepper First Second → StrangStepper First Second
  switch s =
      if not s.done_first && not s.done_second
      then record s { current = at_second; done_first = true }
      else if s.done_first && not s.done_second
      then record s { current = at_first; done_second = true }
      else if s.done_first && s.done_second
      then record s { current = at_first; done_first = false; done_second = false }
      else s

  -- `operator++`
  unfoldable pub advance : StrangStepper First Second → StrangStepper First Second
  unfolding advance_current current_stage switch
  advance s = let s' = advance_current s in if current_stage s' == 0 then switch s' else s'

  -- `UpdateState`: the stepper whose `UpdateState` is called, `none` where neither is.
  unfoldable pub updater : StrangStepper First Second → Option Current
  updater s =
      if not s.done_first && not s.done_second
      then some at_first
      else if s.done_first && not s.done_second
      then some at_second
      else if s.done_first && s.done_second
      then some at_first
      else none
