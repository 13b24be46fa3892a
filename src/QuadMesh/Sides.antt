-- ===== src/QuadMesh/Sides.antt =====
-- The nodes of the four boundaries (mesh_generators/quad_mesh_generator.cpp).
use dgswemv.Prelude.{
  ℕ, ◌+◌, ◌*◌, ◌-◌, ◌^◌, ◌<◌, ◌≤◌, ◌≡◌, refl, false, Option, none, bind, if◌then◌else◌, inl, inr,
  ◌∙◌, some, List, set, replicate, length, length-set, length-replicate, ap, get_elem?,
  get_elem?-set_self, get_elem?-set_ne, for_range, for_range_rule, arith, Bool-cases, ◌==◌,
}
use dgswemv.QuadMesh.Pattern.{uint, uint_small}
use dgswemv.QuadMesh.Cells.{grid_node, grid_node-lt}

pub record Sides : Type 0 where
  pub bottom : List ℕ
  pub right : List ℕ
  pub top : List ℕ
  pub left : List ℕ

-- `nodes.resize(last + 1)` and the loop `for (uint i = 0; i <= last; ++i)` that sets every place;
-- `none` where this has no end, because the counter wraps before it passes the greatest `uint`.
unfoldable pub fill : ℕ → (ℕ → ℕ) → Option (List ℕ)
fill last node =
    if last == 2 ^ 32 - 1
    then none
    else some
        (for_range (last + 1) 0 (λ i nodes. set nodes i (node i)) (replicate (uint (last + 1)) 0))

-- `boundaries[0]`, …, `boundaries[3]`
unfoldable pub sides : ℕ → ℕ → Option Sides
sides m n = bind (fill m (λ i. i)) (λ bottom. bind (fill m (λ i. uint (i + (m + 1) * n))) (λ top.
    bind (fill n (λ i. uint (m + i * (m + 1)))) (λ right.
      bind (fill n (λ i. uint (i * (m + 1))))
        (λ left. some (record { bottom = bottom; right = right; top = top; left = left })))))

record IsFilled (count : ℕ) (node : ℕ → ℕ) (done : ℕ) (nodes : List ℕ) : Type 0 where
  size : length nodes ≡ count
  value : (i : ℕ) → i < done → get_elem? nodes i ≡ some (node i)

abbrev filled : ℕ → (ℕ → ℕ) → List ℕ
filled count node = for_range count 0 (λ i nodes. set nodes i (node i)) (replicate count 0)

filled_lem : (count : ℕ) (node : ℕ → ℕ) → IsFilled count node count (filled count node)
filled_lem count node =
    for_range_rule (IsFilled count node) (λ i nodes. set nodes i (node i)) count 0 count
      (replicate count 0) (omega arith)
      (λ i nodes low high inv. record {
        size = length-set nodes i (node i) ∙ inv.size;
        value = λ k lt. elim (Bool-cases (i == k)) [
          | inl e ↦
              let same : k ≡ i = ground arith in
              let inside : i < length nodes = omega (arith, inv.size) in
              rw same (get_elem?-set_self nodes i (node i) inside)
          | inr e ↦
              get_elem?-set_ne nodes i k (node i) (λ q. ground arith) ∙ inv.value k (ground arith)
        ];
      })
      (record { size = length-replicate count 0; value = λ k lt. absurd (omega arith) })

abbrev pub IsRow : ℕ → (ℕ → ℕ) → List ℕ → Type 0
IsRow count node nodes =
    (length nodes ≡ count) × ((i : ℕ) → i < count → get_elem? nodes i ≡ some (node i))

-- `fill` returns, and the list is a row whose values are written in another way.
fill-IsRow :
    (last : ℕ) (node node' : ℕ → ℕ)
    → last + 1 < 2 ^ 32
    → ((i : ℕ) → i < last + 1 → node i ≡ node' i)
    → (nodes : List ℕ) × (fill last node ≡ some nodes) × IsRow (last + 1) node' nodes
unfolding fill
fill-IsRow last node node' room same =
    let goes_on : (last == 2 ^ 32 - 1) ≡ false = ground arith in
    let done = filled_lem (last + 1) node in
    (
      filled (last + 1) node,
      rw (goes_on, uint_small (last + 1) room) refl,
      (done.size, λ i lt. done.value i lt ∙ ap some (same i lt)),
    )

-- Every node of a grid with at most 2 ^ 32 nodes has its number.
node_exact :
    (m n x y v : ℕ)
    → (m + 1) * (n + 1) ≤ 2 ^ 32
    → x ≤ m
    → y ≤ n
    → v ≡ grid_node m x y
    → uint v ≡ grid_node m x y
node_exact m n x y v small h k e = uint_small v (omega (arith, e, grid_node-lt m n x y h k)) ∙ e

-- On a grid with at most 2 ^ 32 nodes, whose numbers of columns and of rows of nodes are below 2 ^ 32,
-- the loops return, and the nodes of the four boundaries are the outer rows and columns of the grid,
-- complete and in order: the first and the third are the nodes of row 0 and of row `n` by their
-- columns, the second and the fourth the nodes of column `m` and of column 0 by their rows.
pub sides_lem :
    (m n : ℕ)
    → m + 1 < 2 ^ 32
    → n + 1 < 2 ^ 32
    → (m + 1) * (n + 1) ≤ 2 ^ 32
    → (s : Sides) × (sides m n ≡ some s)
      × IsRow (m + 1) (λ i. grid_node m i 0) s.bottom
      × IsRow (n + 1) (λ j. grid_node m m j) s.right
      × IsRow (m + 1) (λ i. grid_node m i n) s.top
      × IsRow (n + 1) (λ j. grid_node m 0 j) s.left
unfolding sides
sides_lem m n wide tall small =
    let (bottom, e1, row1) =
      fill-IsRow m (λ i. i) (λ i. grid_node m i 0) wide (λ i lt. omega arith) in
    let (top, e2, row2) =
      fill-IsRow m (λ i. uint (i + (m + 1) * n)) (λ i. grid_node m i n) wide
        (λ i lt.
          node_exact m n i n (i + (m + 1) * n) small (omega arith) (omega arith) (omega arith)) in
    let (right, e3, row3) =
      fill-IsRow n (λ i. uint (m + i * (m + 1))) (λ j. grid_node m m j) tall
        (λ j lt.
          node_exact m n m j (m + j * (m + 1)) small (omega arith) (omega arith) (omega arith)) in
    let (left, e4, row4) =
      fill-IsRow n (λ i. uint (i * (m + 1))) (λ j. grid_node m 0 j) tall
        (λ j lt.
          node_exact m n 0 j (j * (m + 1)) small (omega arith) (omega arith) (omega arith)) in
    (
      record { bottom = bottom; right = right; top = top; left = left },
      rw (e1, e2, e3, e4) refl,
      row1,
      row3,
      row2,
      row4,
    )
