-- ===== src/Stepper/StageTimes.antt =====
-- The stage times `drk` that the loops of ESSPRKStepper::InitializeCoefficients compute
-- (source/simulation/stepper/explicit_ssp_rk_stepper.cpp).
use dgswemv.Prelude.{
  ℕ, zero, suc, ◌+◌, ◌-◌, ◌<◌, ◌≡◌, ◌≢◌, refl, ◌∙◌, ap, some, inl, inr, List, [], ◌∷◌, ◌++◌, foldl,
  arith, get_or, get_elem?, set, replicate, for_range, for_range_rule, Option-cases,
}
use dgswemv.Double.{Double}
use dgswemv.Stepper.Coefficients.{
  Rows, Tables, zero_of, get, put, blank_rows, assign, fill_crk, fill_drk, build_tables,
  find_scheme, initialize_coefficients,
}
use dgswemv.Stepper.Schemes.Table.{Scheme}

get_or-set_ne :
    {A : Type 0} (xs : List A) (i j : ℕ) (v x : A) → i ≢ j → get_or (set xs i v) j x ≡ get_or xs j x
get_or-set_ne [] i j v x h = refl
get_or-set_ne (y ∷ ys) zero zero v x h = absurd (h refl)
get_or-set_ne (y ∷ ys) zero (suc j) v x h = refl
get_or-set_ne (y ∷ ys) (suc i) zero v x h = refl
get_or-set_ne (y ∷ ys) (suc i) (suc j) v x h = get_or-set_ne ys i j v x (λ e. h (ap suc e))

get_or_of_head : {A : Type 0} (xs : List A) (x v : A) → get_elem? xs 0 ≡ some v → get_or xs 0 x ≡ v
get_or_of_head [] x v h = cc
get_or_of_head (y ∷ ys) x v h = cc

head-append :
    {A : Type 0} (xs ys : List A) (v : A)
    → get_elem? xs 0 ≡ some v
    → get_elem? (xs ++ ys) 0 ≡ some v
head-append [] ys v h = cc
head-append (x ∷ xs) ys v h = h

module _ {D : Type 0} ⦃d : Double D⦄ where
  open d use {plus, times}

  -- Row 0 is never written: the loop over `k` is empty there.
  fill_crk-row_zero :
      (n : ℕ) (ark brk crk : Rows D) → get_or (fill_crk n ark brk crk) 0 [] ≡ get_or crk 0 []
  unfolding fill_crk for_range
  fill_crk-row_zero n ark brk crk =
      for_range_rule (λ _ rows. get_or rows 0 [] ≡ get_or crk 0 []) _ n 0 n crk (omega arith)
        (λ i rows _ _ h. row_round i rows ∙ h) refl
    where
      row_round :
          (i : ℕ) (rows : Rows D)
          → get_or
              (for_range i 0
                (λ k crk'. put crk' i k (
                  plus (get brk i k) (
                    for_range
                      (i - suc k)
                      (suc k)
                      (λ l sum. plus sum (times (get crk' l k) (get ark i l)))
                      zero_of)))
                rows)
              0
              []
            ≡ get_or rows 0 []
      row_round zero rows = refl
      row_round (suc i) rows =
          for_range_rule (λ _ rows'. get_or rows' 0 [] ≡ get_or rows 0 []) _ (suc i) 0 (suc i) rows
            (omega arith) (λ k rows' _ _ h. get_or-set_ne rows' (suc i) 0 _ [] (omega arith) ∙ h)
            refl

  blank-row_zero : (n : ℕ) → get_or (blank_rows {D = D} (suc n)) 0 [] ≡ zero_of ∷ []
  unfolding blank_rows for_range
  blank-row_zero n = get_or_of_head _ [] (zero_of ∷ []) (
      for_range_rule (λ _ rows. get_elem? rows 0 ≡ some (zero_of ∷ [])) _ n 2 (2 + n)
        ((zero_of ∷ []) ∷ []) (omega arith) (λ i rows _ _ h. head-append rows _ _ h) refl)

  fill_drk-one :
      (n : ℕ) (crk : Rows D)
      → get_or crk 0 [] ≡ zero_of ∷ []
      → get_or (fill_drk (suc (suc n)) crk (replicate (suc (suc n)) zero_of)) 1 zero_of
        ≡ plus zero_of zero_of
  unfolding fill_drk for_range
  fill_drk-one n crk h =
      let rounds : suc (suc n) - 1 ≡ suc n = omega arith in
      rw (rounds, fill_drk)
        (for_range_rule (λ _ drk. get_or drk 1 zero_of ≡ plus zero_of zero_of) _ n 2 (2 + n) _
          (omega arith)
          (λ k drk low _ kept.
            for_range_rule (λ _ drk'. get_or drk' 1 zero_of ≡ plus zero_of zero_of) _ k 0 k drk
              (omega arith)
              (λ l drk' _ _ kept'.
                get_or-set_ne drk' k 1 _ zero_of (λ e. absurd (omega arith)) ∙ kept')
              kept)
          (rw h refl))

  build_tables-drk_one :
      (n : ℕ) (scheme : Scheme)
      → get_or (build_tables (suc (suc n)) scheme).drk 1 zero_of ≡ plus zero_of zero_of
  unfolding build_tables
  build_tables-drk_one n scheme =
      let nstages = suc (suc n) in
      let ark = foldl assign (blank_rows nstages) scheme.ark in
      let brk = foldl assign (blank_rows nstages) scheme.brk in
      let crk = fill_crk nstages ark brk (blank_rows nstages) in
      fill_drk-one n crk
        (fill_crk-row_zero nstages ark brk (blank_rows nstages) ∙ blank-row_zero (suc n))

  -- With at least two stages, the second stage time that the loops compute is 0 + 0, whichever
  -- scheme is chosen.
  pub drk-one_stuck :
      (nstages order : ℕ) (tables : Tables D)
      → 1 < nstages
      → initialize_coefficients nstages order ≡ some tables
      → get_or tables.drk 1 zero_of ≡ plus zero_of zero_of
  unfolding initialize_coefficients
  drk-one_stuck zero order tables h e = absurd (omega arith)
  drk-one_stuck (suc zero) order tables h e = absurd (omega arith)
  drk-one_stuck (suc (suc n)) order tables h e =
      elim (Option-cases (find_scheme (suc (suc n)) order)) [
        | inl missing ↦ ground arith
        | inr (scheme, found) ↦ ground (arith, build_tables-drk_one n scheme)
      ]
