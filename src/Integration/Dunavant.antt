-- ===== src/Integration/Dunavant.antt =====
-- `Dunavant_2D` (source/integration/integrations_2D/integration_dunavant_2D.cpp).
pub mod Exactness
use dgswemv.Prelude.{
  ℕ, ◌+◌, ◌^◌, Option, none, some, List, [], ◌∷◌, ◌++◌, ◌==◌, ltb, not, if◌then◌else◌, length,
}
use dgswemv.Integration.Signed.{ℤ, pos, neg, ◌+ℤ◌, ◌*ℤ◌}
use dgswemv.Integration.Data.{TriangleData}
use dgswemv.Integration.Tables.DunavantTo10.{
  dunavant_1, dunavant_2, dunavant_3, dunavant_4, dunavant_5, dunavant_6, dunavant_7, dunavant_8,
  dunavant_9, dunavant_10,
}
use dgswemv.Integration.Tables.DunavantTo16.{
  dunavant_11, dunavant_12, dunavant_13, dunavant_14, dunavant_15, dunavant_16,
}
use dgswemv.Integration.Tables.DunavantTo20.{dunavant_17, dunavant_18, dunavant_19, dunavant_20}

unfoldable pub get_num_gp : ℕ → ℕ
get_num_gp p =
    if p == 1
    then 1
    else if p == 2
    then 3
    else if p == 3
    then 4
    else if p == 4
    then 6
    else if p == 5
    then 7
    else if p == 6
    then 12
    else if p == 7
    then 13
    else if p == 8
    then 16
    else if p == 9
    then 19
    else if p == 10
    then 25
    else if p == 11
    then 27
    else if p == 12
    then 33
    else if p == 13
    then 37
    else if p == 14
    then 42
    else if p == 15
    then 48
    else if p == 16
    then 52
    else if p == 17
    then 61
    else if p == 18
    then 70
    else if p == 19
    then 73
    else if p == 20
    then 79
    else 0

unfoldable pub permutation_data : ℕ → List ℕ
permutation_data p =
    if p == 1
    then 1 ∷ []
    else if p == 2
    then 3 ∷ []
    else if p == 3
    then 1 ∷ 3 ∷ []
    else if p == 4
    then 3 ∷ 3 ∷ []
    else if p == 5
    then 1 ∷ 3 ∷ 3 ∷ []
    else if p == 6
    then 3 ∷ 3 ∷ 6 ∷ []
    else if p == 7
    then 1 ∷ 3 ∷ 3 ∷ 6 ∷ []
    else if p == 8
    then 1 ∷ 3 ∷ 3 ∷ 3 ∷ 6 ∷ []
    else if p == 9
    then 1 ∷ 3 ∷ 3 ∷ 3 ∷ 3 ∷ 6 ∷ []
    else if p == 10
    then 1 ∷ 3 ∷ 3 ∷ 6 ∷ 6 ∷ 6 ∷ []
    else if p == 11
    then 3 ∷ 3 ∷ 3 ∷ 3 ∷ 3 ∷ 6 ∷ 6 ∷ []
    else if p == 12
    then 3 ∷ 3 ∷ 3 ∷ 3 ∷ 3 ∷ 6 ∷ 6 ∷ 6 ∷ []
    else if p == 13
    then 1 ∷ 3 ∷ 3 ∷ 3 ∷ 3 ∷ 3 ∷ 3 ∷ 6 ∷ 6 ∷ 6 ∷ []
    else if p == 14
    then 3 ∷ 3 ∷ 3 ∷ 3 ∷ 3 ∷ 3 ∷ 6 ∷ 6 ∷ 6 ∷ 6 ∷ []
    else if p == 15
    then 3 ∷ 3 ∷ 3 ∷ 3 ∷ 3 ∷ 3 ∷ 6 ∷ 6 ∷ 6 ∷ 6 ∷ 6 ∷ []
    else if p == 16
    then 1 ∷ 3 ∷ 3 ∷ 3 ∷ 3 ∷ 3 ∷ 3 ∷ 3 ∷ 6 ∷ 6 ∷ 6 ∷ 6 ∷ 6 ∷ []
    else if p == 17
    then 1 ∷ 3 ∷ 3 ∷ 3 ∷ 3 ∷ 3 ∷ 3 ∷ 3 ∷ 3 ∷ 6 ∷ 6 ∷ 6 ∷ 6 ∷ 6 ∷ 6 ∷ []
    else if p == 18
    then 1 ∷ 3 ∷ 3 ∷ 3 ∷ 3 ∷ 3 ∷ 3 ∷ 3 ∷ 3 ∷ 3 ∷ 6 ∷ 6 ∷ 6 ∷ 6 ∷ 6 ∷ 6 ∷ 6 ∷ []
    else if p == 19
    then 1 ∷ 3 ∷ 3 ∷ 3 ∷ 3 ∷ 3 ∷ 3 ∷ 3 ∷ 3 ∷ 6 ∷ 6 ∷ 6 ∷ 6 ∷ 6 ∷ 6 ∷ 6 ∷ 6 ∷ []
    else if p == 20
    then 1 ∷ 3 ∷ 3 ∷ 3 ∷ 3 ∷ 3 ∷ 3 ∷ 3 ∷ 3 ∷ 3 ∷ 3 ∷ 6 ∷ 6 ∷ 6 ∷ 6 ∷ 6 ∷ 6 ∷ 6 ∷ 6 ∷ []
    else []

unfoldable pub gp_data : ℕ → TriangleData
gp_data p =
    if p == 1
    then dunavant_1
    else if p == 2
    then dunavant_2
    else if p == 3
    then dunavant_3
    else if p == 4
    then dunavant_4
    else if p == 5
    then dunavant_5
    else if p == 6
    then dunavant_6
    else if p == 7
    then dunavant_7
    else if p == 8
    then dunavant_8
    else if p == 9
    then dunavant_9
    else if p == 10
    then dunavant_10
    else if p == 11
    then dunavant_11
    else if p == 12
    then dunavant_12
    else if p == 13
    then dunavant_13
    else if p == 14
    then dunavant_14
    else if p == 15
    then dunavant_15
    else if p == 16
    then dunavant_16
    else if p == 17
    then dunavant_17
    else if p == 18
    then dunavant_18
    else if p == 19
    then dunavant_19
    else if p == 20
    then dunavant_20
    else record { weights = []; points = [] }

-- A point of the rule on the master triangle, in units of 10 ^ -15.
pub record GaussPoint : Type 0 where
  pub weight : ℤ
  pub x : ℤ
  pub y : ℤ

-- `2 * a - 1`
unfoldable pub master : ℤ → ℤ
master a = pos 2 *ℤ a +ℤ neg (10 ^ 15)

unfoldable pub point : ℤ → ℤ → ℤ → GaussPoint
point w a b = record { weight = pos 2 *ℤ w; x = master a; y = master b }

-- The points written for one row of the table; a size other than 1, 3 and 6 writes none.
unfoldable pub orbit : ℕ → ℤ → (ℤ × ℤ × ℤ) → List GaussPoint
orbit size w (a, b, c) =
    if size == 1
    then point w a b ∷ []
    else if size == 3
    then point w a b ∷ point w b c ∷ point w c a ∷ []
    else if size == 6
    then point w a b ∷ point w b c ∷ point w c a ∷ point w b a ∷ point w c b ∷ point w a c ∷ []
    else []

-- The loop over the rows, whose writes fill the rule from its first place on.
unfoldable pub expand : List ℕ → List ℤ → List (ℤ × ℤ × ℤ) → List GaussPoint
expand (size ∷ sizes) (w ∷ ws) (q ∷ qs) = orbit size w q ++ expand sizes ws qs
expand _ _ _ = []

-- `none` is the `exit(1)`.
unfoldable pub get_rule : ℕ → Option (List GaussPoint)
get_rule p =
    if ltb 20 p
    then none
    else if not (length (permutation_data p) == length (gp_data p).weights)
    then none
    else some (expand (permutation_data p) (gp_data p).weights (gp_data p).points)
