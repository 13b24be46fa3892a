-- ===== src/QuadMesh/Input.antt =====
-- `MeshGeneratorInput::MeshGeneratorInput` (mesh_generators/quad_mesh_generator.cpp).
pub mod Checked
use text.Mathlib.Text.{◌==◌ as str_eq}
use Prim.Native.String.{String}
use dgswemv.Prelude.{
  ℕ, suc, ◌+◌, ◌%◌, ◌≤◌, ◌≡◌, ◌⊎◌, inl, inr, refl, Bool, true, false, ◌&&◌, ◌||◌, not, Option, none,
  some, List, [], ◌∷◌, ◌==◌, ltb, leb, if◌then◌else◌, length, All, arith, Option-cases, Bool-cases,
}
use dgswemv.BoundaryTypes.{land, tide, flow, function, outflow}
use dgswemv.Outcome.{
  Error, missing, unsupported, malformed, Outcome, returned, thrown, ◌>>=◌, ◌>>◌, throw_unless,
  from_option, >>=-eq-returned,
}
use dgswemv.Yaml.{Yaml, required, double_of, uint_of, text_of, text_at}
use dgswemv.QuadMesh.Pattern.{Pattern, simple, zigzag, checker}

pub record Forcing (D : Type 0) : Type 0 where
  pub frequency : D
  pub forcing_factor : D
  pub equilibrium_argument : D

-- `Boundary`, before its nodes are set; the forcing is set for tide and flow only.
pub record Boundary (D : Type 0) : Type 0 where
  pub kind : ℕ
  pub forcing : Option (Forcing D)

pub record MeshGeneratorInput (D : Type 0) : Type 0 where
  pub mesh_name : String
  pub x1 : D
  pub y1 : D
  pub x2 : D
  pub y2 : D
  pub x3 : D
  pub y3 : D
  pub x4 : D
  pub y4 : D
  pub num_x_subdivisions : ℕ
  pub num_y_subdivisions : ℕ
  pub pattern' : Pattern
  pub boundary : List (Boundary D)

-- `static_cast<Pattern>(…)` to an enumeration over `uchar`, and the test `pattern > 2`.
unfoldable pub pattern_of : ℕ → Outcome Pattern
pattern_of value =
    let code = value % 256 in
    if code == 0
    then returned simple
    else if code == 1
    then returned zigzag
    else if code == 2
    then returned checker
    else thrown (unsupported "pattern")

-- The if-else chain over the name of a boundary type.
unfoldable pub boundary_code : String → Outcome ℕ
boundary_code name =
    if str_eq name "land"
    then returned land
    else if str_eq name "tide"
    then returned tide
    else if str_eq name "flow"
    then returned flow
    else if str_eq name "function"
    then returned function
    else if str_eq name "outflow"
    then returned outflow
    else thrown (unsupported name)

module _ {N D : Type 0} (y : Yaml N D) where
  open y use {lookup, is_sequence, items}

  -- The three nodes of a tide or a flow boundary.
  unfoldable pub read_forcing : N → Outcome (Forcing D)
  read_forcing node = do
    f ← from_option (malformed "boundary") (lookup node "frequency")
    g ← from_option (malformed "boundary") (lookup node "forcing_factor")
    e ← from_option (malformed "boundary") (lookup node "equilibrium_argument")
    frequency ← double_of y f
    factor ← double_of y g
    argument ← double_of y e
    returned
        (record { frequency = frequency; forcing_factor = factor; equilibrium_argument = argument })

  unfoldable pub with_forcing : ℕ → N → Outcome (Boundary D)
  with_forcing kind node =
      if kind == tide || kind == flow
      then read_forcing node >>= (λ f. returned (record { kind = kind; forcing = some f }))
      else returned (record { kind = kind; forcing = none })

  unfoldable pub read_boundary : N → Outcome (Boundary D)
  read_boundary node = do
    name ← text_at y node "type"
    kind ← boundary_code name
    with_forcing kind node

  unfoldable pub read_boundaries : List N → Outcome (List (Boundary D))
  read_boundaries [] = returned []
  read_boundaries (node ∷ nodes) = do
    first ← read_boundary node
    rest ← read_boundaries nodes
    returned (first ∷ rest)

  -- `if (yaml_input[key]) … = yaml_input[key].as<double>(); else throw_missing_node(key);`
  unfoldable pub read_double : N → String → Outcome D
  read_double node key = required y node key >>= double_of y

  unfoldable pub read_uint : N → String → Outcome ℕ
  read_uint node key = required y node key >>= uint_of y

  unfoldable pub read_boundary_list : N → Outcome (List (Boundary D))
  read_boundary_list input = do
    node ← required y input "boundary"
    throw_unless (is_sequence node && length (items node) == 4) (malformed "boundary")
    read_boundaries (items node)

  unfoldable pub read_name : N → Outcome String
  read_name input = elim (lookup input "mesh_name") [
    | none ↦ returned "quad_mesh"
    | some node ↦ text_of y node
  ]

  unfoldable pub read_input : N → Outcome (MeshGeneratorInput D)
  read_input input = do
    x1 ← read_double input "x1"
    y1 ← read_double input "y1"
    x2 ← read_double input "x2"
    y2 ← read_double input "y2"
    x3 ← read_double input "x3"
    y3 ← read_double input "y3"
    x4 ← read_double input "x4"
    y4 ← read_double input "y4"
    m ← read_uint input "num_x_subdivisions"
    n ← read_uint input "num_y_subdivisions"
    code ← read_uint input "pattern"
    pat ← pattern_of code
    boundary ← read_boundary_list input
    name ← read_name input
    returned (record {
      mesh_name = name;
      x1 = x1;
      y1 = y1;
      x2 = x2;
      y2 = y2;
      x3 = x3;
      y3 = y3;
      x4 = x4;
      y4 = y4;
      num_x_subdivisions = m;
      num_y_subdivisions = n;
      pattern' = pat;
      boundary = boundary;
    })
