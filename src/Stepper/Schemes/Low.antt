-- ===== src/Stepper/Schemes/Low.antt =====
-- The schemes with at most four stages of ESSPRKStepper::InitializeCoefficients
-- (source/simulation/stepper/explicit_ssp_rk_stepper.cpp).
use dgswemv.Prelude.{[], ◌∷◌}
use dgswemv.Stepper.Schemes.Table.{entry, Scheme}

unfoldable pub ssp_1_1 : Scheme
ssp_1_1 = record { ark = entry 0 0 1 1 ∷ []; brk = entry 0 0 1 1 ∷ [] }

unfoldable pub ssp_2_2 : Scheme
ssp_2_2 = record {
  ark = entry 0 0 1 1 ∷ entry 1 0 5 10 ∷ entry 1 1 5 10 ∷ [];
  brk = entry 0 0 1 1 ∷ entry 1 1 5 10 ∷ [];
}

unfoldable pub ssp_3_3 : Scheme
ssp_3_3 = record {
  ark = entry 0 0 1 1 ∷ entry 1 0 3 4 ∷ entry 1 1 1 4 ∷ entry 2 0 1 3 ∷ entry 2 2 2 3 ∷ [];
  brk = entry 0 0 1 1 ∷ entry 1 1 1 4 ∷ entry 2 2 2 3 ∷ [];
}

unfoldable pub ssp_4_3 : Scheme
ssp_4_3 = record {
  ark = entry 0 0 1 1 ∷ entry 1 1 1 1 ∷ entry 2 0 2 3 ∷ entry 2 2 1 3 ∷ entry 3 3 1 1 ∷ [];
  brk = entry 0 0 1 2 ∷ entry 1 1 1 2 ∷ entry 2 2 1 6 ∷ entry 3 3 1 2 ∷ [];
}
