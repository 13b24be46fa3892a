-- ===== src/Stepper/Consistency.antt =====
-- The tables of ESSPRKStepper::InitializeCoefficients
-- (source/simulation/stepper/explicit_ssp_rk_stepper.cpp) as Shu-Osher schemes, with the constants
-- of the source read as exact fractions.
use dgswemv.Prelude.{
  ℕ, zero, suc, ◌+◌, ◌-◌, ◌*◌, ◌^◌, ◌≤◌, ◌<◌, ◌≡◌, Bool, true, false, ◌&&◌, ◌||◌, ◌==◌,
  if◌then◌else◌, some, Option, inl, inr, subst, Bool-cases, List, [], ◌∷◌, All, arith,
}
use native.Mathlib.Decide.{dec_lt}
use dgswemv.Stepper.Coefficients.{find_scheme}
use dgswemv.Stepper.Schemes.Table.{Entry, entry, Scheme}
use dgswemv.Stepper.Schemes.Low.{ssp_1_1, ssp_2_2, ssp_3_3, ssp_4_3}
use dgswemv.Stepper.Schemes.Order3.{ssp_5_3, ssp_6_3, ssp_7_3, ssp_8_3}
use dgswemv.Stepper.Schemes.Order4.{ssp_5_4, ssp_6_4, ssp_7_4, ssp_8_4}

-- A fraction, not in lowest terms.
pub record Fraction : Type 0 where
  pub num : ℕ
  pub den : ℕ

-- The exact sum of one row.
pub row_sum : ℕ → List Entry → Fraction
row_sum r [] = record { num = 0; den = 1 }
row_sum r (entry row col num den ∷ es) =
    let rest = row_sum r es in
    if row == r
    then record { num = num * rest.den + rest.num * den; den = den * rest.den }
    else rest

-- Within 10^-13 of 1.
abbrev pub IsNearOne : Fraction → Type 0
IsNearOne f =
    (0 < f.den)
    × (f.num * 10 ^ 13 ≤ f.den * (10 ^ 13 + 1))
    × (f.den * (10 ^ 13 - 1) ≤ f.num * 10 ^ 13)

-- A positive constant at a place of the triangular table that the class allocates.
abbrev pub IsPlaced : ℕ → Entry → Type 0
IsPlaced nstages (entry row col num den) = (row < nstages) × (col ≤ row) × (0 < num) × (0 < den)

pub stands_at : Entry → List Entry → Bool
stands_at e [] = false
stands_at (entry row col num den) (entry row' col' num' den' ∷ es) =
    row == row' && col == col' || stands_at (entry row col num den) es

abbrev pub AllBelow {ℓ} : (ℕ → Type ℓ) → ℕ → Type ℓ
AllBelow P zero = Unit
AllBelow P (suc n) = P n × AllBelow P n

AllBelow-at : (P : ℕ → Type 0) (n r : ℕ) → AllBelow P n → r < n → P r
AllBelow-at P zero r h lt = absurd (omega arith)
AllBelow-at P (suc n) r h lt = elim (dec_lt r n) [
  | yes p ↦ AllBelow-at P n r h.1 p
  | no p ↦ let e : n ≡ r = omega arith in subst P e h.0
]

pub record IsShuOsher (nstages : ℕ) (s : Scheme) : Type 0 where
  pub ark_placed : All (IsPlaced nstages) s.ark
  pub brk_placed : All (IsPlaced nstages) s.brk
  pub convex : AllBelow (λ r. IsNearOne (row_sum r s.ark)) nstages
  pub paired : All (λ e. stands_at e s.ark ≡ true) s.brk

ssp_1_1-IsShuOsher : IsShuOsher 1 ssp_1_1
unfolding ssp_1_1 row_sum stands_at
ssp_1_1-IsShuOsher = record {
  ark_placed = omega arith;
  brk_placed = omega arith;
  convex = omega arith;
  paired = ground arith;
}

ssp_2_2-IsShuOsher : IsShuOsher 2 ssp_2_2
unfolding ssp_2_2 row_sum stands_at
ssp_2_2-IsShuOsher = record {
  ark_placed = omega arith;
  brk_placed = omega arith;
  convex = omega arith;
  paired = ground arith;
}

ssp_3_3-IsShuOsher : IsShuOsher 3 ssp_3_3
unfolding ssp_3_3 row_sum stands_at
ssp_3_3-IsShuOsher = record {
  ark_placed = omega arith;
  brk_placed = omega arith;
  convex = omega arith;
  paired = ground arith;
}

ssp_4_3-IsShuOsher : IsShuOsher 4 ssp_4_3
unfolding ssp_4_3 row_sum stands_at
ssp_4_3-IsShuOsher = record {
  ark_placed = omega arith;
  brk_placed = omega arith;
  convex = omega arith;
  paired = ground arith;
}

ssp_5_3-IsShuOsher : IsShuOsher 5 ssp_5_3
unfolding ssp_5_3 row_sum stands_at
ssp_5_3-IsShuOsher = record {
  ark_placed = omega arith;
  brk_placed = omega arith;
  convex = omega arith;
  paired = ground arith;
}

ssp_6_3-IsShuOsher : IsShuOsher 6 ssp_6_3
unfolding ssp_6_3 row_sum stands_at
ssp_6_3-IsShuOsher = record {
  ark_placed = omega arith;
  brk_placed = omega arith;
  convex = omega arith;
  paired = ground arith;
}

ssp_7_3-IsShuOsher : IsShuOsher 7 ssp_7_3
unfolding ssp_7_3 row_sum stands_at
ssp_7_3-IsShuOsher = record {
  ark_placed = omega arith;
  brk_placed = omega arith;
  convex = omega arith;
  paired = ground arith;
}

ssp_8_3-IsShuOsher : IsShuOsher 8 ssp_8_3
unfolding ssp_8_3 row_sum stands_at
ssp_8_3-IsShuOsher = record {
  ark_placed = omega arith;
  brk_placed = omega arith;
  convex = omega arith;
  paired = ground arith;
}

ssp_5_4-IsShuOsher : IsShuOsher 5 ssp_5_4
unfolding ssp_5_4 row_sum stands_at
ssp_5_4-IsShuOsher = record {
  ark_placed = omega arith;
  brk_placed = omega arith;
  convex = omega arith;
  paired = ground arith;
}

ssp_6_4-IsShuOsher : IsShuOsher 6 ssp_6_4
unfolding ssp_6_4 row_sum stands_at
ssp_6_4-IsShuOsher = record {
  ark_placed = omega arith;
  brk_placed = omega arith;
  convex = omega arith;
  paired = ground arith;
}

ssp_7_4-IsShuOsher : IsShuOsher 7 ssp_7_4
unfolding ssp_7_4 row_sum stands_at
ssp_7_4-IsShuOsher = record {
  ark_placed = omega arith;
  brk_placed = omega arith;
  convex = omega arith;
  paired = ground arith;
}

ssp_8_4-IsShuOsher : IsShuOsher 8 ssp_8_4
unfolding ssp_8_4 row_sum stands_at
ssp_8_4-IsShuOsher = record {
  ark_placed = omega arith;
  brk_placed = omega arith;
  convex = omega arith;
  paired = ground arith;
}

-- One test of the if-else chain.
chain :
    (nstages order n o : ℕ) (found s : Scheme) (rest : Option Scheme)
    → IsShuOsher n found
    → (rest ≡ some s → IsShuOsher nstages s)
    → (if nstages == n && order == o then some found else rest) ≡ some s
    → IsShuOsher nstages s
chain nstages order n o found s rest good otherwise h =
    elim (Bool-cases (nstages == n && order == o)) [
      | inl e ↦
          let same : nstages ≡ n = ground arith in
          let it : found ≡ s = ground arith in rw (same, ← it) good
      | inr e ↦ otherwise (rw e at h)
    ]

-- Every scheme that the if-else chain chooses fits the triangular tables of its number of stages,
-- has positive constants, has rows of `ark` whose exact sum is 1 up to 10^-13, and has a `brk`
-- only where it has an `ark`.
pub find_scheme-IsShuOsher :
    (nstages order : ℕ) (s : Scheme) → find_scheme nstages order ≡ some s → IsShuOsher nstages s
unfolding find_scheme
find_scheme-IsShuOsher nstages order s h =
    chain nstages order 1 1 ssp_1_1 s _ ssp_1_1-IsShuOsher
      (λ h.
        chain nstages order 2 2 ssp_2_2 s _ ssp_2_2-IsShuOsher
          (λ h.
            chain nstages order 3 3 ssp_3_3 s _ ssp_3_3-IsShuOsher
              (λ h.
                chain nstages order 4 3 ssp_4_3 s _ ssp_4_3-IsShuOsher
                  (λ h.
                    chain nstages order 5 3 ssp_5_3 s _ ssp_5_3-IsShuOsher
                      (λ h.
                        chain nstages order 6 3 ssp_6_3 s _ ssp_6_3-IsShuOsher
                          (λ h.
                            chain nstages order 7 3 ssp_7_3 s _ ssp_7_3-IsShuOsher
                              (λ h.
                                chain nstages order 8 3 ssp_8_3 s _ ssp_8_3-IsShuOsher
                                  (λ h.
                                    chain nstages order 5 4 ssp_5_4 s _ ssp_5_4-IsShuOsher
                                      (λ h.
                                        chain nstages order 6 4 ssp_6_4 s _ ssp_6_4-IsShuOsher
                                          (λ h.
                                            chain nstages order 7 4 ssp_7_4 s _ ssp_7_4-IsShuOsher
                                              (λ h.
                                                chain nstages order 8 4 ssp_8_4 s _
                                                  ssp_8_4-IsShuOsher (λ h. cc) h)
                                              h)
                                          h)
                                      h)
                                  h)
                              h)
                          h)
                      h)
                  h)
              h)
          h)
      h
