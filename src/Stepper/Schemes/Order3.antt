-- ===== src/Stepper/Schemes/Order3.antt =====
-- The third order schemes with five to eight stages of ESSPRKStepper::InitializeCoefficients
-- (source/simulation/stepper/explicit_ssp_rk_stepper.cpp).
use dgswemv.Prelude.{◌^◌, [], ◌∷◌}
use dgswemv.Stepper.Schemes.Table.{entry, Scheme}

unfoldable pub ssp_5_3 : Scheme
ssp_5_3 = record {
  ark =
      entry 0 0 1 1
      ∷ entry 1 1 1 1
      ∷ entry 2 0 355909775063327 (10 ^ 15)
      ∷ entry 2 2 644090224936674 (10 ^ 15)
      ∷ entry 3 0 367933791638137 (10 ^ 15)
      ∷ entry 3 3 632066208361863 (10 ^ 15)
      ∷ entry 4 2 237593836598569 (10 ^ 15)
      ∷ entry 4 4 762406163401431 (10 ^ 15)
      ∷ [];
  brk =
      entry 0 0 377268915331368 (10 ^ 15)
      ∷ entry 1 1 377268915331368 (10 ^ 15)
      ∷ entry 2 2 242995220537396 (10 ^ 15)
      ∷ entry 3 3 238458932846290 (10 ^ 15)
      ∷ entry 4 4 287632146308408 (10 ^ 15)
      ∷ [];
}

unfoldable pub ssp_6_3 : Scheme
ssp_6_3 = record {
  ark =
      entry 0 0 1 1
      ∷ entry 1 1 1 1
      ∷ entry 2 2 1 1
      ∷ entry 3 0 476769811285196 (10 ^ 15)
      ∷ entry 3 1 98511733286064 (10 ^ 15)
      ∷ entry 3 3 424718455428740 (10 ^ 15)
      ∷ entry 4 4 1 1
      ∷ entry 5 2 155221702560091 (10 ^ 15)
      ∷ entry 5 5 844778297439909 (10 ^ 15)
      ∷ [];
  brk =
      entry 0 0 284220721334261 (10 ^ 15)
      ∷ entry 1 1 284220721334261 (10 ^ 15)
      ∷ entry 2 2 284220721334261 (10 ^ 15)
      ∷ entry 3 3 120713785765930 (10 ^ 15)
      ∷ entry 4 4 284220721334261 (10 ^ 15)
      ∷ entry 5 5 240103497065900 (10 ^ 15)
      ∷ [];
}

unfoldable pub ssp_7_3 : Scheme
ssp_7_3 = record {
  ark =
      entry 0 0 1 1
      ∷ entry 1 1 1 1
      ∷ entry 2 2 1 1
      ∷ entry 3 0 184962588071072 (10 ^ 15)
      ∷ entry 3 3 815037411928928 (10 ^ 15)
      ∷ entry 4 0 180718656570380 (10 ^ 15)
      ∷ entry 4 1 314831034403793 (10 ^ 15)
      ∷ entry 4 4 504450309025826 (10 ^ 15)
      ∷ entry 5 5 1 1
      ∷ entry 6 3 120199000000000 (10 ^ 15)
      ∷ entry 6 6 879801000000000 (10 ^ 15)
      ∷ [];
  brk =
      entry 0 0 233213863663009 (10 ^ 15)
      ∷ entry 1 1 233213863663009 (10 ^ 15)
      ∷ entry 2 2 233213863663009 (10 ^ 15)
      ∷ entry 3 3 190078023865845 (10 ^ 15)
      ∷ entry 4 4 117644805593912 (10 ^ 15)
      ∷ entry 5 5 233213863663009 (10 ^ 15)
      ∷ entry 6 6 205181790464579 (10 ^ 15)
      ∷ [];
}

unfoldable pub ssp_8_3 : Scheme
ssp_8_3 = record {
  ark =
      entry 0 0 1 1
      ∷ entry 1 1 1 1
      ∷ entry 2 2 1 1
      ∷ entry 3 3 1 1
      ∷ entry 4 0 421366967085359 (10 ^ 15)
      ∷ entry 4 1 5949401107575 (10 ^ 15)
      ∷ entry 4 4 572683631807067 (10 ^ 15)
      ∷ entry 5 1 4254010666365 (10 ^ 15)
      ∷ entry 5 5 995745989333635 (10 ^ 15)
      ∷ entry 6 2 104380143093325 (10 ^ 15)
      ∷ entry 6 3 243265240906726 (10 ^ 15)
      ∷ entry 6 6 652354615999950 (10 ^ 15)
      ∷ entry 7 7 1 1
      ∷ [];
  brk =
      entry 0 0 195804015330143 (10 ^ 15)
      ∷ entry 1 1 195804015330143 (10 ^ 15)
      ∷ entry 2 2 195804015330143 (10 ^ 15)
      ∷ entry 3 3 195804015330143 (10 ^ 15)
      ∷ entry 4 4 112133754621673 (10 ^ 15)
      ∷ entry 5 5 194971062960412 (10 ^ 15)
      ∷ entry 6 6 127733653231944 (10 ^ 15)
      ∷ entry 7 7 195804015330143 (10 ^ 15)
      ∷ [];
}
