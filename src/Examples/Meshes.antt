-- ===== src/Examples/Meshes.antt =====
-- The mesh readers and the mesh generator on concrete inputs.
use Prim.Native.String.{String}
use text.Mathlib.Text.{◌==◌ as str_eq}
use dgswemv.Prelude.{
  ℕ, zero, suc, ◌+◌, ◌%◌, ◌<◌, ◌≡◌, ◌≢◌, ◌↔◌, inl, inr, refl, true, false, Option, some, none, [],
  ◌∷◌, arith, get_or, All, length, if◌then◌else◌,
}
use dgswemv.BoundaryTypes.{
  levee, distributed_offset, is_internal, is_distributed, is_boundary, distributed,
}
use dgswemv.Outcome.{returned, thrown, unsupported}
use dgswemv.Yaml.{Yaml}
use dgswemv.Adcirc.{Boundaries}
use dgswemv.Adcirc.Boundary.{
  has_edge_from, has_edge, some_has_edge, find_key, segment_verdict, segments_verdict, get_ibtype,
  search_inside, search_side, search_barriers, get_internal_node_pair,
}
use dgswemv.Adcirc.Boundary.Edges.{Neighbours, has_edge_iff}
use dgswemv.Adcirc.Boundary.Barriers.{IsPaired, OnBarrier, get_internal_node_pair_lem}
use dgswemv.Adcirc.Boundary.Classify.{IsKeyed, get_ibtype_comm, get_ibtype-levee, get_ibtype_island}
use dgswemv.BoundaryTypes.{is_distributed-distributed, count_true, edge_types_partition}
use dgswemv.QuadMesh.Pattern.{zigzag, checker, elements_of}
use dgswemv.QuadMesh.Cells.{grid_node, IsCut}
use dgswemv.QuadMesh.Sides.{Sides, IsRow, sides, sides_lem}
use dgswemv.QuadMesh.Patterns.{rises, elements_of-IsCut}
use dgswemv.QuadMesh.Geometry.{IsGood, elements_of-IsGood}
use dgswemv.QuadMesh.Input.{
  Boundary, MeshGeneratorInput, pattern_of, boundary_code, read_forcing, with_forcing,
  read_boundary, read_boundaries, read_double, read_uint, read_boundary_list, read_name, read_input,
}
use dgswemv.QuadMesh.Input.Checked.{IsChecked, code, pattern_of_iff, read_input-IsChecked}

is_distributed-distributed_example :
    (is_distributed (distributed levee) ≡ true)
    × (is_internal (distributed levee) ≡ false)
    × (distributed levee ≡ levee + distributed_offset)
unfolding is_internal
is_distributed-distributed_example = is_distributed-distributed levee refl

-- One land segment and one barrier, with front nodes 4, 5, 6 and back nodes 14, 15, 16.
abbrev barrier_mesh : Boundaries ℕ
barrier_mesh = record {
  nope = 1;
  neta = 2;
  nbdv = (1 ∷ 2 ∷ []) ∷ [];
  nbou = 2;
  nvel = 5;
  ibtype = 0 ∷ 24 ∷ [];
  nbvv = (2 ∷ 3 ∷ []) ∷ (4 ∷ 5 ∷ 6 ∷ []) ∷ [];
  ibconn = (1, 14 ∷ 15 ∷ 16 ∷ []) ∷ [];
  barinth = (1, 0 ∷ 0 ∷ 0 ∷ []) ∷ [];
  barincfsb = (1, 1 ∷ 1 ∷ 1 ∷ []) ∷ [];
  barincfsp = (1, 1 ∷ 1 ∷ 1 ∷ []) ∷ [];
  ngen = 0;
  nngn = 0;
  nbgn = [];
}

classified :
    (get_ibtype barrier_mesh 2 1 ≡ some 1)
    × (get_ibtype barrier_mesh 2 3 ≡ some 0)
    × (get_ibtype barrier_mesh 16 15 ≡ some levee)
    × (get_ibtype barrier_mesh 3 1 ≡ none)
    × (get_internal_node_pair barrier_mesh 16 15 ≡ some (5, 6))
unfolding get_ibtype some_has_edge has_edge has_edge_from segments_verdict segment_verdict find_key
    get_internal_node_pair search_barriers search_side search_inside
classified = (refl, refl, refl, refl, refl)

barrier_mesh-IsKeyed : IsKeyed barrier_mesh
unfolding find_key
barrier_mesh-IsKeyed = record { barrier = keyed }
  where
    keyed :
        (segment : ℕ)
        → segment < 2
        → get_or (0 ∷ 24 ∷ []) segment 0 % 10 ≡ 4
        → find_key barrier_mesh.ibconn segment ≢ none
    keyed zero lt e = absurd (omega arith)
    keyed (suc zero) lt e = λ h. cc
    keyed (suc (suc segment)) lt e = absurd (omega arith)

barrier_mesh-IsPaired : IsPaired (barrier_mesh.nbvv) (barrier_mesh.ibconn)
barrier_mesh-IsPaired = omega arith

get_ibtype-levee_example :
    (p : ℕ) × (q : ℕ) × (get_internal_node_pair barrier_mesh 5 6 ≡ some (p, q))
    × OnBarrier barrier_mesh.nbvv barrier_mesh.ibconn 5 6 p q
unfolding get_ibtype some_has_edge has_edge has_edge_from segments_verdict segment_verdict find_key
get_ibtype-levee_example =
    get_ibtype-levee barrier_mesh 5 6 barrier_mesh-IsKeyed barrier_mesh-IsPaired refl

get_internal_node_pair_lem_example :
    (p : ℕ) × (q : ℕ) × (get_internal_node_pair barrier_mesh 15 14 ≡ some (p, q))
    × OnBarrier barrier_mesh.nbvv barrier_mesh.ibconn 15 14 p q
get_internal_node_pair_lem_example =
    get_internal_node_pair_lem barrier_mesh 15 14 barrier_mesh-IsPaired
      (inr (inl (inr (inl (refl, refl)))))

get_ibtype_comm_example : get_ibtype barrier_mesh 4 5 ≡ get_ibtype barrier_mesh 5 4
get_ibtype_comm_example = get_ibtype_comm barrier_mesh 4 5

-- One island, which is all the boundary there is.
abbrev island_mesh : Boundaries ℕ
island_mesh = record barrier_mesh {
  nbdv = [];
  nbou = 1;
  ibtype = 1 ∷ [];
  nbvv = (4 ∷ 5 ∷ 6 ∷ 4 ∷ []) ∷ [];
  ibconn = [];
}

island_types : (segment : ℕ) → segment < 1 → get_or (1 ∷ []) segment 0 % 10 ≡ 1
island_types zero lt = refl
island_types (suc segment) lt = absurd (omega arith)

get_ibtype_island_example : get_ibtype island_mesh 4 5 ≡ none
get_ibtype_island_example = get_ibtype_island island_mesh 4 5 refl refl island_types

has_edge_iff_example :
    (has_edge (3 ∷ 7 ∷ 3 ∷ 9 ∷ []) 9 3 ≡ true) ↔ Neighbours 9 3 (3 ∷ 7 ∷ 3 ∷ 9 ∷ [])
has_edge_iff_example = has_edge_iff (3 ∷ 7 ∷ 3 ∷ 9 ∷ []) 9 3

elements_of-IsCut_example : IsCut 3 (rises checker 1 2) 1 2 (elements_of checker 3 4)
elements_of-IsCut_example =
    elements_of-IsCut checker 3 4 1 2 (omega arith) (omega arith) (omega arith)

elements_of-IsGood_example : IsGood 3 4 17 (elements_of zigzag 3 4)
elements_of-IsGood_example = elements_of-IsGood zigzag 3 4 17 (omega arith) (omega arith)

pattern_of_iff_example :
    ((pattern_of 257 ≡ returned zigzag) ↔ (257 % 256 ≡ code zigzag))
    × ((pattern_of 257 ≡ thrown (unsupported "pattern")) ↔ (2 < 257 % 256))
pattern_of_iff_example = pattern_of_iff 257 zigzag

edge_types_partition_example :
    count_true (is_boundary 193) + count_true (is_internal 193) + count_true (is_distributed 193)
    ≡ 1
edge_types_partition_example = edge_types_partition 193

-- A document with three land boundaries and one tide.
data Document : Type 0 where
  input : Document
  border : Document
  land_side : Document
  tide_side : Document
  number : ℕ → Document
  words : String → Document

abbrev lookup_of : Document → String → Option Document
lookup_of input key =
    if str_eq key "boundary"
    then some border
    else if str_eq key "mesh_name"
    then none
    else some (number 2)
lookup_of land_side key = if str_eq key "type" then some (words "land") else none
lookup_of tide_side key = if str_eq key "type" then some (words "tide") else some (number 7)
lookup_of _ key = none

abbrev number_of : Document → Option ℕ
number_of (number n) = some n
number_of _ = none

abbrev string_of : Document → Option String
string_of (words s) = some s
string_of _ = none

abbrev document : Yaml Document ℕ
document = record {
  lookup = lookup_of;
  as_double = number_of;
  as_uint = number_of;
  as_bool = λ _. none;
  as_text = string_of;
  is_null = λ _. false;
  is_sequence = λ n. true;
  items = λ n. land_side ∷ tide_side ∷ land_side ∷ land_side ∷ [];
}

abbrev land_boundary : Boundary ℕ
land_boundary = record { kind = 0; forcing = none }

abbrev read_result : MeshGeneratorInput ℕ
read_result = record {
  mesh_name = "quad_mesh";
  x1 = 2;
  y1 = 2;
  x2 = 2;
  y2 = 2;
  x3 = 2;
  y3 = 2;
  x4 = 2;
  y4 = 2;
  num_x_subdivisions = 2;
  num_y_subdivisions = 2;
  pattern' = checker;
  boundary =
      land_boundary
      ∷ record {
        kind = 1;
        forcing = some (record { frequency = 7; forcing_factor = 7; equilibrium_argument = 7 });
      }
      ∷ land_boundary
      ∷ land_boundary
      ∷ [];
}

read_document : read_input document input ≡ returned read_result
unfolding read_input read_name read_boundary_list read_boundaries read_boundary with_forcing
    read_forcing boundary_code pattern_of read_uint read_double
read_document = refl

read_input-IsChecked_example :
    (length read_result.boundary ≡ 4) × All IsChecked read_result.boundary
read_input-IsChecked_example = read_input-IsChecked document input read_result read_document

sides_lem_example :
    (s : Sides) × (sides 3 2 ≡ some s)
    × IsRow 4 (λ i. grid_node 3 i 0) s.bottom
    × IsRow 3 (λ j. grid_node 3 3 j) s.right
    × IsRow 4 (λ i. grid_node 3 i 2) s.top
    × IsRow 3 (λ j. grid_node 3 0 j) s.left
sides_lem_example = sides_lem 3 2 (omega arith) (omega arith) (omega arith)
