-- ===== src/Integration/Gauss.antt =====
-- `GaussLegendre_1D` (source/integration/integrations_1D/integration_gausslegendre_1D.cpp).
pub mod Exactness
use dgswemv.Prelude.{ℕ, ◌+◌, ◌/◌, Option, none, some, List, [], ◌∷◌, ◌==◌, ltb, if◌then◌else◌}
use dgswemv.Integration.Data.{LineData}
use dgswemv.Integration.Tables.GaussTo9.{
  gauss_1, gauss_2, gauss_3, gauss_4, gauss_5, gauss_6, gauss_7, gauss_8, gauss_9,
}
use dgswemv.Integration.Tables.GaussTo14.{gauss_10, gauss_11, gauss_12, gauss_13, gauss_14}
use dgswemv.Integration.Tables.GaussTo18.{gauss_15, gauss_16, gauss_17, gauss_18}
use dgswemv.Integration.Tables.GaussTo22.{gauss_19, gauss_20, gauss_21, gauss_22}
use dgswemv.Integration.Tables.GaussTo25.{gauss_23, gauss_24, gauss_25}
use dgswemv.Integration.Tables.GaussTo28.{gauss_26, gauss_27, gauss_28}
use dgswemv.Integration.Tables.GaussTo31.{gauss_29, gauss_30, gauss_31}
use dgswemv.Integration.Tables.GaussTo33.{gauss_32, gauss_33}

-- `ceil((p + 1) / 2)`
unfoldable pub get_num_gp : ℕ → ℕ
get_num_gp p = (p + 1 + 1) / 2

unfoldable pub gp_data : ℕ → LineData
gp_data n =
    if n == 1
    then gauss_1
    else if n == 2
    then gauss_2
    else if n == 3
    then gauss_3
    else if n == 4
    then gauss_4
    else if n == 5
    then gauss_5
    else if n == 6
    then gauss_6
    else if n == 7
    then gauss_7
    else if n == 8
    then gauss_8
    else if n == 9
    then gauss_9
    else if n == 10
    then gauss_10
    else if n == 11
    then gauss_11
    else if n == 12
    then gauss_12
    else if n == 13
    then gauss_13
    else if n == 14
    then gauss_14
    else if n == 15
    then gauss_15
    else if n == 16
    then gauss_16
    else if n == 17
    then gauss_17
    else if n == 18
    then gauss_18
    else if n == 19
    then gauss_19
    else if n == 20
    then gauss_20
    else if n == 21
    then gauss_21
    else if n == 22
    then gauss_22
    else if n == 23
    then gauss_23
    else if n == 24
    then gauss_24
    else if n == 25
    then gauss_25
    else if n == 26
    then gauss_26
    else if n == 27
    then gauss_27
    else if n == 28
    then gauss_28
    else if n == 29
    then gauss_29
    else if n == 30
    then gauss_30
    else if n == 31
    then gauss_31
    else if n == 32
    then gauss_32
    else if n == 33
    then gauss_33
    else record { weights = []; points = [] }

-- `none` is the `exit(1)`; the loop copies the table.
unfoldable pub get_rule : ℕ → Option LineData
get_rule p = if ltb 65 p then none else some (gp_data (get_num_gp p))
