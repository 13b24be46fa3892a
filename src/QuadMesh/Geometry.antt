-- ===== src/QuadMesh/Geometry.antt =====
-- The numbering, the bounds and the orientation of the generated triangles, and the four sides of
-- the grid (mesh_generators/quad_mesh_generator.cpp).
use native.Mathlib.Nat.{
  mod-lt, div-add-mod, add_comm, add-mul-div_right, div-eq_of_lt, mod-eq-sub-div-mul,
  lt_of_mul-lt-mul_left,
}
use native.Mathlib.Decide.{dec_lt, ℕ_discrete}
use dgswemv.Prelude.{
  ℕ, suc, ◌+◌, ◌*◌, ◌/◌, ◌%◌, ◌^◌, ◌<◌, ◌≤◌, ◌≡◌, ◌⊎◌, inl, inr, ap, ◌∙◌, Bool, true, false, some,
  List, [], ◌∷◌, arith, get_elem?, All,
}
use dgswemv.QuadMesh.Pattern.{Pattern, Element, element, elements_of}
use dgswemv.QuadMesh.Cells.{grid_node, grid_node-lt, triangles}
use dgswemv.QuadMesh.Patterns.{rises, elements_of-IsCut}

-- The column and the row of a node.
abbrev pub column : ℕ → ℕ → ℕ
column m v = v % (m + 1)

abbrev pub row : ℕ → ℕ → ℕ
row m v = v / (m + 1)

row-grid_node : (m x y : ℕ) → x ≤ m → row m (grid_node m x y) ≡ y
row-grid_node m x y h =
    ap (λ v. v / (m + 1)) (add_comm (y * (m + 1)) x)
    ∙ add-mul-div_right x y (omega arith)
    ∙ omega (arith, div-eq_of_lt {n = x} {m = m + 1} (omega arith))

column-grid_node : (m x y : ℕ) → x ≤ m → column m (grid_node m x y) ≡ x
column-grid_node m x y h =
    let e = row-grid_node m x y h in
    mod-eq-sub-div-mul (grid_node m x y) (m + 1) ∙ rw e (omega arith)

-- Twice the signed area of the triangle of three grid points is one cell: they are named counter
-- clockwise and span half a cell. The negative terms stand on the left.
abbrev pub IsHalfCell : ℕ → List ℕ → Type 0
IsHalfCell m (u ∷ v ∷ w ∷ []) =
    column m u * row m w + column m v * row m u + column m w * row m v + 1
    ≡ column m u * row m v + column m v * row m w + column m w * row m u
IsHalfCell m _ = ⊥

IsHalfCell-of :
    (m x1 y1 x2 y2 x3 y3 : ℕ)
    → x1 ≤ m
    → x2 ≤ m
    → x3 ≤ m
    → x1 * y3 + x2 * y1 + x3 * y2 + 1 ≡ x1 * y2 + x2 * y3 + x3 * y1
    → IsHalfCell m (grid_node m x1 y1 ∷ grid_node m x2 y2 ∷ grid_node m x3 y3 ∷ [])
IsHalfCell-of m x1 y1 x2 y2 x3 y3 h1 h2 h3 e =
    rw
      (
        column-grid_node m x1 y1 h1,
        column-grid_node m x2 y2 h2,
        column-grid_node m x3 y3 h3,
        row-grid_node m x1 y1 h1,
        row-grid_node m x2 y2 h2,
        row-grid_node m x3 y3 h3,
      )
      e

triangles-IsHalfCell :
    (rising : Bool) (m i j : ℕ)
    → i < m
    → IsHalfCell m (triangles rising m i j).0 × IsHalfCell m (triangles rising m i j).1
unfolding triangles
triangles-IsHalfCell true m i j h = (
  IsHalfCell-of m i j (suc i) (suc j) i (suc j) (omega arith) h (omega arith) (omega arith),
  IsHalfCell-of m i j (suc i) j (suc i) (suc j) (omega arith) h h (omega arith),
)
triangles-IsHalfCell false m i j h = (
  IsHalfCell-of m i j (suc i) j i (suc j) (omega arith) h (omega arith) (omega arith),
  IsHalfCell-of m (suc i) j (suc i) (suc j) i (suc j) h h (omega arith) (omega arith),
)

triangles-lt :
    (rising : Bool) (m n i j : ℕ)
    → i < m
    → j < n
    → All (λ v. v < (m + 1) * (n + 1)) (triangles rising m i j).0
      × All (λ v. v < (m + 1) * (n + 1)) (triangles rising m i j).1
unfolding triangles
triangles-lt true m n i j h k = omega (
  arith,
  grid_node-lt m n i j (omega arith) (omega arith),
  grid_node-lt m n (suc i) j h (omega arith),
  grid_node-lt m n i (suc j) (omega arith) k,
  grid_node-lt m n (suc i) (suc j) h k,
)
triangles-lt false m n i j h k = omega (
  arith,
  grid_node-lt m n i j (omega arith) (omega arith),
  grid_node-lt m n (suc i) j h (omega arith),
  grid_node-lt m n i (suc j) (omega arith) k,
  grid_node-lt m n (suc i) (suc j) h k,
)

-- A stored element: it is numbered by its place, its nodes exist, and it is half a cell.
pub record IsGood (m n e : ℕ) (elements : List Element) : Type 0 where
  pub nodes : List ℕ
  pub stored : get_elem? elements e ≡ some (element e nodes)
  pub in_range : All (λ v. v < (m + 1) * (n + 1)) nodes
  pub half_cell : IsHalfCell m nodes

-- The cell of a place, and which of its two triangles stands there.
place :
    (m n e : ℕ)
    → e < 2 * m * n
    → let i = e / 2 % m in
      let j = e / 2 / m in
      (i < m) × (j < n) × ((e ≡ 2 * i + 2 * m * j) ⊎ (e ≡ 2 * i + 2 * m * j + 1))
place m n e h =
    let c = e / 2 in
    let split : m * (c / m) + c % m ≡ c = div-add-mod c m in
    let below : c < m * n = omega arith in
    let positive : 0 < m = elim (dec_lt 0 m) [
      | yes p ↦ p
      | no p ↦ let e' : m ≡ 0 = omega arith in absurd (omega (arith, ap (λ k. k * n) e'))
    ] in
    (
      mod-lt c positive,
      lt_of_mul-lt-mul_left m (omega arith),
      elim (ℕ_discrete (e % 2) 0) [ yes p ↦ inl (omega arith) | no p ↦ inr (omega arith) ],
    )

-- For every pattern and an m by n grid with less than 2 ^ 32 elements, every place of the element
-- vector holds a triangle that is numbered by its place, whose nodes are nodes of the grid, and which
-- is half a cell with its nodes counter clockwise.
pub elements_of-IsGood :
    (pattern' : Pattern) (m n e : ℕ)
    → 2 * m * n < 2 ^ 32
    → e < 2 * m * n
    → IsGood m n e (elements_of pattern' m n)
elements_of-IsGood pattern' m n e small h =
    let i = e / 2 % m in
    let j = e / 2 / m in
    let (i_lt, j_lt, at) = place m n e h in
    let cut = elements_of-IsCut pattern' m n i j small i_lt j_lt in
    let rising = rises pattern' i j in
    let (half, half') = triangles-IsHalfCell rising m i j i_lt in
    let (low, low') = triangles-lt rising m n i j i_lt j_lt in
    elim at [
      | inl here ↦ rw here (record {
        nodes = (triangles rising m i j).0;
        stored = cut.first;
        in_range = low;
        half_cell = half;
      })
      | inr here ↦ rw here (record {
        nodes = (triangles rising m i j).1;
        stored = cut.second;
        in_range = low';
        half_cell = half';
      })
    ]
