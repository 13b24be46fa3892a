-- ===== src/Stepper/Coefficients.antt =====
-- ESSPRKStepper::InitializeCoefficients (source/simulation/stepper/explicit_ssp_rk_stepper.cpp):
-- the choice of a scheme, the tables it fills, and the loops that derive `crk` and `drk` from them.
use dgswemv.Prelude.{
  ℕ, suc, ◌-◌, ◌&&◌, Option, none, some, List, [], ◌∷◌, foldl, ◌==◌, if◌then◌else◌, get_or, set,
  replicate, for_range, ◌++◌,
}
use dgswemv.Double.{Double}
use dgswemv.Stepper.Schemes.Table.{Entry, entry, Scheme}
use dgswemv.Stepper.Schemes.Low.{ssp_1_1, ssp_2_2, ssp_3_3, ssp_4_3}
use dgswemv.Stepper.Schemes.Order3.{ssp_5_3, ssp_6_3, ssp_7_3, ssp_8_3}
use dgswemv.Stepper.Schemes.Order4.{ssp_5_4, ssp_6_4, ssp_7_4, ssp_8_4}

-- The if-else chain over `nstages` and `order`; `none` is the exception at its end.
unfoldable pub find_scheme : ℕ → ℕ → Option Scheme
find_scheme nstages order =
    if nstages == 1 && order == 1
    then some ssp_1_1
    else if nstages == 2 && order == 2
    then some ssp_2_2
    else if nstages == 3 && order == 3
    then some ssp_3_3
    else if nstages == 4 && order == 3
    then some ssp_4_3
    else if nstages == 5 && order == 3
    then some ssp_5_3
    else if nstages == 6 && order == 3
    then some ssp_6_3
    else if nstages == 7 && order == 3
    then some ssp_7_3
    else if nstages == 8 && order == 3
    then some ssp_8_3
    else if nstages == 5 && order == 4
    then some ssp_5_4
    else if nstages == 6 && order == 4
    then some ssp_6_4
    else if nstages == 7 && order == 4
    then some ssp_7_4
    else if nstages == 8 && order == 4
    then some ssp_8_4
    else none

-- A triangular table, row by row.
abbrev pub Rows : Type 0 → Type 0
Rows D = List (List D)

-- The four tables of the class.
pub record Tables (D : Type 0) : Type 0 where
  pub ark : Rows D
  pub brk : Rows D
  pub crk : Rows D
  pub drk : List D

module _ {D : Type 0} ⦃d : Double D⦄ where
  open d use {of_ratio, plus, times}

  abbrev pub zero_of : D
  zero_of = of_ratio 0 1

  -- `rows[i][j]`
  abbrev pub get : Rows D → ℕ → ℕ → D
  get rows i j = get_or (get_or rows i []) j zero_of

  -- `rows[i][j] = value`
  abbrev pub put : Rows D → ℕ → ℕ → D → Rows D
  put rows i j value = set rows i (set (get_or rows i []) j value)

  -- The loop over `step` that appends a row of `step` zeros.
  unfoldable pub blank_rows : ℕ → Rows D
  unfolding for_range
  blank_rows nstages = for_range nstages 1 (λ step rows. rows ++ replicate step zero_of ∷ []) []

  unfoldable pub assign : Rows D → Entry → Rows D
  assign rows (entry row col num den) = put rows row col (of_ratio num den)

  -- `crk[i][k] = brk[i][k] + casum`
  unfoldable pub fill_crk : ℕ → Rows D → Rows D → Rows D → Rows D
  unfolding for_range
  fill_crk nstages ark brk = for_range nstages 0 λ i. for_range i 0 λ k crk.
      let casum =
        for_range (i - suc k) (suc k) (λ l sum. plus sum (times (get crk l k) (get ark i l)))
          zero_of in
      put crk i k (plus (get brk i k) casum)

  -- `drk[k] = drk[k] + crk[k - 1][l]`
  unfoldable pub fill_drk : ℕ → Rows D → List D → List D
  unfolding for_range
  fill_drk nstages crk =
      for_range (nstages - 1) 1
        λ k. for_range k 0 λ l drk. set drk k (plus (get_or drk k zero_of) (get crk (k - 1) l))

  -- The tables of a scheme.
  unfoldable pub build_tables : ℕ → Scheme → Tables D
  unfolding blank_rows assign fill_crk fill_drk
  build_tables nstages scheme =
      let ark = foldl assign (blank_rows nstages) scheme.ark in
      let brk = foldl assign (blank_rows nstages) scheme.brk in
      let crk = fill_crk nstages ark brk (blank_rows nstages) in
      let drk = fill_drk nstages crk (replicate nstages zero_of) in
      record { ark = ark; brk = brk; crk = crk; drk = drk }

  unfoldable pub initialize_coefficients : ℕ → ℕ → Option (Tables D)
  initialize_coefficients nstages order = elim (find_scheme nstages order) [
    | none ↦ none
    | some scheme ↦ some (build_tables nstages scheme)
  ]
