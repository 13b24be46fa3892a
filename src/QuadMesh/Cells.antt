-- ===== src/QuadMesh/Cells.antt =====
-- One cell of the grid: the slots it owns and the triangles written there
-- (mesh_generators/quad_mesh_generator.cpp).
use native.Mathlib.Nat.{mul-le-mul_left, mul-le-mul_right, mul-suc}
use dgswemv.Prelude.{
  ℕ, zero, suc, ◌+◌, ◌*◌, ◌^◌, ◌<◌, ◌≤◌, ◌≡◌, ◌≢◌, refl, ◌∙◌, ap, Bool, true, false, some, List, [],
  ◌∷◌, arith, get_elem?, set, length, length-set, get_elem?-set_self, get_elem?-set_ne,
}
use native.Mathlib.Decide.{dec_lt}
use dgswemv.QuadMesh.Pattern.{
  uint, uint_small, Element, element, write_cell, write_rising, write_falling,
}

-- The node at column `x` and row `y` of the grid.
abbrev pub grid_node : ℕ → ℕ → ℕ → ℕ
grid_node m x y = y * (m + 1) + x

-- The two triangles of cell (i, j), by the corners of the cell.
unfoldable pub triangles : Bool → ℕ → ℕ → ℕ → List ℕ × List ℕ
triangles true m i j = (
  grid_node m i j ∷ grid_node m (suc i) (suc j) ∷ grid_node m i (suc j) ∷ [],
  grid_node m i j ∷ grid_node m (suc i) j ∷ grid_node m (suc i) (suc j) ∷ [],
)
triangles false m i j = (
  grid_node m i j ∷ grid_node m (suc i) j ∷ grid_node m i (suc j) ∷ [],
  grid_node m (suc i) j ∷ grid_node m (suc i) (suc j) ∷ grid_node m i (suc j) ∷ [],
)

-- The slots of cell (i, j) hold its triangles, cut by the rising or the falling diagonal.
pub record IsCut (m : ℕ) (rising : Bool) (i j : ℕ) (elements : List Element) : Type 0 where
  pub first :
      get_elem? elements (2 * i + 2 * m * j)
      ≡ some (element (2 * i + 2 * m * j) (triangles rising m i j).0)
  pub second :
      get_elem? elements (2 * i + 2 * m * j + 1)
      ≡ some (element (2 * i + 2 * m * j + 1) (triangles rising m i j).1)

row_lt : (m i i' j j' : ℕ) → i < m → j < j' → i + m * j < i' + m * j'
row_lt m i i' j j' h lt = omega (arith, mul-le-mul_left m lt, mul-suc m j)

cell_injective : (m i i' j j' : ℕ) → i < m → i' < m → i + m * j ≡ i' + m * j' → (i ≡ i') × (j ≡ j')
cell_injective m i i' j j' h h' e = elim (dec_lt j j') [
  | yes lt ↦ absurd (omega (arith, row_lt m i i' j j' h lt))
  | no not_lt ↦ elim (dec_lt j' j) [
    | yes gt ↦ absurd (omega (arith, row_lt m i' i j' j h' gt))
    | no not_gt ↦ let rows : j ≡ j' = omega arith in (omega (arith, ap (λ k. m * k) rows), rows)
  ]
]

slot_lt : (m n i j : ℕ) → i < m → j < n → 2 * i + 2 * m * j + 1 < 2 * m * n
slot_lt m n i j h k = omega (arith, mul-le-mul_left m k, mul-suc m j)

pub grid_node-lt : (m n x y : ℕ) → x ≤ m → y ≤ n → grid_node m x y < (m + 1) * (n + 1)
grid_node-lt m n x y h k = omega (arith, mul-le-mul_right (m + 1) k)

-- What a cell writes where no number wraps.
unfoldable put_cell : ℕ → ℕ → ℕ → List ℕ → List ℕ → List Element → List Element
put_cell m i j nodes nodes' elements =
    let slot = 2 * i + 2 * m * j in
    set (set elements slot (element slot nodes)) (slot + 1) (element (slot + 1) nodes')

module _ (m n : ℕ) where
  -- The vector has two elements for each cell.
  abbrev pub IsSized : List Element → Type 0
  IsSized elements = length elements ≡ 2 * m * n

  length-put_cell :
      (i j : ℕ) (ns ns' : List ℕ) (elements : List Element)
      → IsSized elements
      → IsSized (put_cell m i j ns ns' elements)
  unfolding put_cell
  length-put_cell i j ns ns' elements sized = rw (length-set, length-set) sized

  put_cell-here :
      (i j : ℕ) (ns ns' : List ℕ) (elements : List Element)
      → i < m
      → j < n
      → IsSized elements
      → let slot = 2 * i + 2 * m * j in
        let after = put_cell m i j ns ns' elements in
        (get_elem? after slot ≡ some (element slot ns))
        × (get_elem? after (slot + 1) ≡ some (element (slot + 1) ns'))
  unfolding put_cell
  put_cell-here i j ns ns' elements h k sized =
      let slot = 2 * i + 2 * m * j in
      let room = slot_lt m n i j h k in
      let before = set elements slot (element slot ns) in
      (
        get_elem?-set_ne before (slot + 1) slot (element (slot + 1) ns') (omega arith)
            ∙ get_elem?-set_self elements slot (element slot ns) (omega arith),
        get_elem?-set_self before (slot + 1) (element (slot + 1) ns')
            (omega (arith, length-set elements slot (element slot ns))),
      )

  put_cell-other :
      (i j k : ℕ) (ns ns' : List ℕ) (elements : List Element)
      → 2 * i + 2 * m * j ≢ k
      → 2 * i + 2 * m * j + 1 ≢ k
      → get_elem? (put_cell m i j ns ns' elements) k ≡ get_elem? elements k
  unfolding put_cell
  put_cell-other i j k ns ns' elements h h' =
      let slot = 2 * i + 2 * m * j in
      get_elem?-set_ne (set elements slot (element slot ns)) (slot + 1) k (element (slot + 1) ns')
        h'
      ∙ get_elem?-set_ne elements slot k (element slot ns) h

  -- A write of one cell keeps what every other cell holds.
  put_cell-IsCut :
      (i j i' j' : ℕ) (ns ns' : List ℕ) (rising : Bool) (elements : List Element)
      → i < m
      → i' < m
      → (i ≡ i' → j ≡ j' → ⊥)
      → IsCut m rising i' j' elements
      → IsCut m rising i' j' (put_cell m i j ns ns' elements)
  put_cell-IsCut i j i' j' ns ns' rising elements h h' apart cut =
      let differ : i + m * j ≢ i' + m * j' =
        λ e. let (p, q) = cell_injective m i i' j j' h h' e in apart p q in
      record {
        first =
            put_cell-other i j (2 * i' + 2 * m * j') ns ns' elements (omega arith) (omega arith)
            ∙ cut.first;
        second =
            put_cell-other i j (2 * i' + 2 * m * j' + 1) ns ns' elements (omega arith) (omega arith)
            ∙ cut.second;
      }

  -- The body of the loops that cut by the given diagonal.
  abbrev pub write : Bool → ℕ → ℕ → List Element → List Element
  write true = write_rising m
  write false = write_falling m

nodes-le : (m n : ℕ) → 0 < m → 0 < n → 2 * m * n < 2 ^ 32 → (m + 1) * (n + 1) ≤ 2 ^ 32
nodes-le zero n h k small = absurd (omega arith)
nodes-le (suc a) zero h k small = absurd (omega arith)
nodes-le (suc a) (suc b) h k small = omega arith

-- A grid with less than 2 ^ 32 elements: no number that is computed for it wraps.
module _ (m n : ℕ) (small : 2 * m * n < 2 ^ 32) where
  all_nodes-le : (i j : ℕ) → i < m → j < n → (m + 1) * (n + 1) ≤ 2 ^ 32
  all_nodes-le i j h k = nodes-le m n (omega arith) (omega arith) small

  node_small :
      (i j x y v : ℕ)
      → i < m
      → j < n
      → x ≤ m
      → y ≤ n
      → v ≡ grid_node m x y
      → uint v ≡ grid_node m x y
  node_small i j x y v h k low low' e =
      uint_small v (omega (arith, e, grid_node-lt m n x y low low', all_nodes-le i j h k)) ∙ e

  corner_1 : (i j : ℕ) → i < m → j < n → uint (i + (m + 1) * j) ≡ grid_node m i j
  corner_1 i j h k =
      node_small i j i j (i + (m + 1) * j) h k (omega arith) (omega arith) (omega arith)

  corner_2 : (i j : ℕ) → i < m → j < n → uint (i + 1 + (m + 1) * j) ≡ grid_node m (suc i) j
  corner_2 i j h k =
      node_small i j (suc i) j (i + 1 + (m + 1) * j) h k h (omega arith) (omega arith)

  corner_3 : (i j : ℕ) → i < m → j < n → uint (i + m + 1 + (m + 1) * j) ≡ grid_node m i (suc j)
  corner_3 i j h k =
      node_small i j i (suc j) (i + m + 1 + (m + 1) * j) h k (omega arith) k (omega arith)

  corner_4 :
      (i j : ℕ) → i < m → j < n → uint (i + m + 2 + (m + 1) * j) ≡ grid_node m (suc i) (suc j)
  corner_4 i j h k = node_small i j (suc i) (suc j) (i + m + 2 + (m + 1) * j) h k h k (omega arith)

  write_cell-eq :
      (i j : ℕ) (ns ns' : List ℕ) (elements : List Element)
      → i < m
      → j < n
      → write_cell m i j ns ns' elements ≡ put_cell m i j ns ns' elements
  unfolding write_cell put_cell
  write_cell-eq i j ns ns' elements h k =
      let room = slot_lt m n i j h k in
      rw
        (
          uint_small (2 * i + 2 * m * j) (omega (arith, room, small)),
          uint_small (2 * i + 2 * m * j + 1) (omega (arith, room, small)),
        )
        refl

  write-eq :
      (rising : Bool) (i j : ℕ) (elements : List Element)
      → i < m
      → j < n
      → write m n rising j i elements
        ≡ put_cell m i j (triangles rising m i j).0 (triangles rising m i j).1 elements
  unfolding write_rising write_falling triangles
  write-eq true i j elements h k =
      rw (corner_1 i j h k, corner_2 i j h k, corner_3 i j h k, corner_4 i j h k)
        (write_cell-eq i j _ _ elements h k)
  write-eq false i j elements h k =
      rw (corner_1 i j h k, corner_2 i j h k, corner_3 i j h k, corner_4 i j h k)
        (write_cell-eq i j _ _ elements h k)

  pub write-IsSized :
      (rising : Bool) (i j : ℕ) (elements : List Element)
      → i < m
      → j < n
      → IsSized m n elements
      → IsSized m n (write m n rising j i elements)
  write-IsSized rising i j elements h k sized =
      rw (write-eq rising i j elements h k) (length-put_cell m n i j _ _ elements sized)

  pub write-keeps :
      (rising cut : Bool) (i j i' j' : ℕ) (elements : List Element)
      → i < m
      → j < n
      → i' < m
      → (i ≡ i' → j ≡ j' → ⊥)
      → IsCut m cut i' j' elements
      → IsCut m cut i' j' (write m n rising j i elements)
  write-keeps rising cut i j i' j' elements h k h' apart c =
      rw (write-eq rising i j elements h k)
        (put_cell-IsCut m n i j i' j' _ _ cut elements h h' apart c)

  pub write-IsCut :
      (rising : Bool) (i j : ℕ) (elements : List Element)
      → i < m
      → j < n
      → IsSized m n elements
      → IsCut m rising i j (write m n rising j i elements)
  write-IsCut rising i j elements h k sized =
      let written = triangles rising m i j in
      let (one, two) = put_cell-here m n i j written.0 written.1 elements h k sized in
      rw (write-eq rising i j elements h k) (record { first = one; second = two })
