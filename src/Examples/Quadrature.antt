-- ===== src/Examples/Quadrature.antt =====
-- The quadrature rules of source/integration at concrete strengths.
use dgswemv.Prelude.{◌≡◌, refl, some, none, List, arith}
use dgswemv.Integration.Data.{LineData}
use dgswemv.Integration.Dunavant
use dgswemv.Integration.Dunavant.{GaussPoint}
use dgswemv.Integration.Dunavant.Exactness as Triangle
use dgswemv.Integration.Gauss
use dgswemv.Integration.Gauss.Exactness as Line

get_rule-IsExact_example :
    (r : List GaussPoint) × (Dunavant.get_rule 5 ≡ some r) × Triangle.IsExact 5 r
get_rule-IsExact_example = Triangle.get_rule-IsExact 5 (omega arith) (omega arith)

line_rule-IsExact_example : (r : LineData) × (Gauss.get_rule 7 ≡ some r) × Line.IsExact 7 r
line_rule-IsExact_example = Line.line_rule-IsExact 7 (omega arith)

-- A strength beyond the tables ends the program.
refused : (Dunavant.get_rule 21 ≡ none) × (Gauss.get_rule 66 ≡ none)
unfolding Dunavant.get_rule Gauss.get_rule
refused = (refl, refl)
