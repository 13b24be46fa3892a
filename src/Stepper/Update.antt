-- ===== src/Stepper/Update.antt =====
-- ESSPRKStepper::UpdateState (source/simulation/stepper/explicit_ssp_rk_stepper.hpp), on the list of
-- an element's stage states. The vectors of the linear algebra library are an interface.
pub mod Frame
use dgswemv.Prelude.{ℕ, zero, suc, some, none, List, ◌==◌, if◌then◌else◌, get_elem?, set, for_range}
use dgswemv.Double.{Double}
use dgswemv.Stepper.Coefficients.{get}
use dgswemv.Stepper.Explicit.{EssprkStepper}

pub record Vectors (D V : Type 0) : Type 0 where
  pub add : V → V → V
  pub scale : D → V → V
  pub zeros : V → V

-- One entry of `elt.data.state`: the modal coefficients and the right-hand side.
pub record StageState (V : Type 0) : Type 0 where
  pub q : V
  pub solution : V

module _ {D V : Type 0} ⦃d : Double D⦄ (v : Vectors D V) where
  open d use {times}
  open v use {add, scale, zeros}

  -- A write of `state[i].q`; nothing out of range.
  unfoldable pub set_q : List (StageState V) → ℕ → V → List (StageState V)
  set_q states i q' = elim (get_elem? states i) [
    | none ↦ states
    | some st ↦ set states i (record st { q = q' })
  ]

  -- `q + (ark[stage][s] * state[s].q + dt * brk[stage][s] * state[s].solution)`
  unfoldable pub contribution : EssprkStepper D → ℕ → V → StageState V → V
  contribution stepper s q st = add q (
      add (scale (get stepper.tables.ark stepper.stage s) st.q)
        (scale (times stepper.dt (get stepper.tables.brk stepper.stage s)) st.solution))

  -- One round of the loop over `s`: `next_state.q += …`.
  unfoldable pub accumulate : EssprkStepper D → ℕ → List (StageState V) → List (StageState V)
  accumulate stepper s states = elim (get_elem? states s) [
    | none ↦ states
    | some st ↦ elim (get_elem? states (suc stepper.stage)) [
      | none ↦ states
      | some next ↦ set_q states (suc stepper.stage) (contribution stepper s next.q st)
    ]
  ]

  -- `std::swap(state[i].q, state[j].q)`
  unfoldable pub swap_q : ℕ → ℕ → List (StageState V) → List (StageState V)
  swap_q i j states = elim (get_elem? states i) [
    | none ↦ states
    | some a ↦ elim (get_elem? states j) [
      | none ↦ states
      | some b ↦ set_q (set_q states i b.q) j a.q
    ]
  ]

  unfoldable pub clear : ℕ → List (StageState V) → List (StageState V)
  clear i states = elim (get_elem? states i) [
    | none ↦ states
    | some st ↦ set_q states i (zeros st.q)
  ]

  -- `set_constant(next_state.q, 0.0)` and the loop over `s`.
  unfoldable pub sum_stages : EssprkStepper D → List (StageState V) → List (StageState V)
  unfolding for_range set_q contribution accumulate clear
  sum_stages stepper states =
      for_range (suc stepper.stage) 0 (accumulate stepper) (clear (suc stepper.stage) states)

  unfoldable pub update_state : EssprkStepper D → List (StageState V) → List (StageState V)
  update_state stepper states =
      let summed = sum_stages stepper states in
      if suc stepper.stage == stepper.nstages then swap_q 0 stepper.nstages summed else summed

  -- The combination that a stage computes, from the states before the call.
  unfoldable pub combination : EssprkStepper D → List (StageState V) → ℕ → V → V
  combination stepper states zero start = start
  combination stepper states (suc s) start =
      let before = combination stepper states s start in
      elim (get_elem? states s) [ none ↦ before | some st ↦ contribution stepper s before st ]
