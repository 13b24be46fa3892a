-- ===== src/Integration/Data.antt =====
-- The tables that `GPData` of the quadrature rules returns (source/integration).
use dgswemv.Prelude.{List}
use dgswemv.Integration.Signed.{ℤ}

-- Weights and barycentric coordinates.
pub record TriangleData : Type 0 where
  pub weights : List ℤ
  pub points : List (ℤ × ℤ × ℤ)

pub record LineData : Type 0 where
  pub weights : List ℤ
  pub points : List ℤ
