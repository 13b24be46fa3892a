-- ===== src/BoundaryTypes.antt =====
-- The boundary type codes of source/problem/SWE/swe_definitions.hpp and the edge types of
-- source/utilities/edge_types.hpp, as values of `uchar`.
use dgswemv.Prelude.{ℕ, ◌+◌, ◌%◌, ◌≡◌, Bool, true, false, ◌&&◌, ltb, leb, if◌then◌else◌, arith}

abbrev pub land : ℕ
land = 0

abbrev pub tide : ℕ
tide = 1

abbrev pub flow : ℕ
flow = 2

abbrev pub function : ℕ
function = 3

abbrev pub outflow : ℕ
outflow = 4

abbrev pub internal : ℕ
internal = 128

abbrev pub levee : ℕ
levee = 129

abbrev pub distributed_offset : ℕ
distributed_offset = 64

abbrev pub distributed_code : ℕ
distributed_code = 192

unfoldable pub is_internal : ℕ → Bool
is_internal edge = leb internal edge && ltb edge distributed_code

unfoldable pub is_distributed : ℕ → Bool
is_distributed edge = leb distributed_code edge

unfoldable pub is_boundary : ℕ → Bool
is_boundary edge = ltb edge internal

-- `uchar` arithmetic wraps at 256.
unfoldable pub distributed : ℕ → ℕ
distributed internal_edge = (internal_edge + distributed_offset) % 256

-- Marking an internal edge as distributed gives a distributed edge, from which the internal type
-- can be read back by its offset; in particular a levee stays apart from an internal edge.
pub is_distributed-distributed :
    (edge : ℕ)
    → is_internal edge ≡ true
    → (is_distributed (distributed edge) ≡ true)
      × (is_internal (distributed edge) ≡ false)
      × (distributed edge ≡ edge + distributed_offset)
unfolding is_internal is_distributed distributed
is_distributed-distributed edge h = ground arith

abbrev pub count_true : Bool → ℕ
count_true b = if b then 1 else 0

-- Every code is exactly one of boundary, internal and distributed.
pub edge_types_partition :
    (edge : ℕ)
    → count_true (is_boundary edge)
        + count_true (is_internal edge)
        + count_true (is_distributed edge)
      ≡ 1
unfolding is_internal is_distributed is_boundary
edge_types_partition edge = ground arith
