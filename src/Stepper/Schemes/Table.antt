-- ===== src/Stepper/Schemes/Table.antt =====
-- The assignments `ark[row][col] = num / den` by which
-- source/simulation/stepper/explicit_ssp_rk_stepper.cpp fills its tables, with exact constants.
use dgswemv.Prelude.{ℕ, List}

pub data Entry : Type 0 where
  entry : (row col num den : ℕ) → Entry

pub record Scheme : Type 0 where
  pub ark : List Entry
  pub brk : List Entry
