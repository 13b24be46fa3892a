-- ===== src/Examples/Partitioner.antt =====
-- Two triangles with a common edge, dealt to two partitions on one node.
use dgswemv.Prelude.{
  ℕ, ◌*◌, ◌<◌, ◌≡◌, ◌≢◌, refl, some, none, true, List, [], ◌∷◌, get_elem?, get_or, leb, Bool-cases,
  inl, inr, if◌then◌else◌, arith,
}
use dgswemv.Double.{fixed_double}
use dgswemv.BoundaryTypes.{distributed}
use dgswemv.Adcirc.{Coordinates}
use dgswemv.Adcirc.Boundary.{find_key}
use dgswemv.Metadata.{ElementMetaData, default_id, put_key}
use dgswemv.Partitioner.Csr.{
  EdgeWeights, CsrMat, find_pair, contains, add, connect, edge_sets, insert, sort, sort_sets,
  first_size, all_of_size, node_ids, build, neighbors_of, xadj, xadj_from, adj, adj_from,
  mapping_from, row_of, node_wgts, node_wgts_from, edge_wgts, edge_wgts_from, edge_weight,
  add_weight,
}
use dgswemv.Partitioner.Csr.Rows.{rows_of, index_rows, rows_of-adj}
use dgswemv.Partitioner.Csr.Edges.{linked, build-linked, adj_total}
use dgswemv.Partitioner.Weights.{
  Metis, Elements, max_abs, scale_to_int64, metis_part, put_pair, element_weights, add_edges,
  edge_weights_from, edge_weights, add_vectors, submesh_weights, submesh_edges,
}
use dgswemv.Partitioner.Layout.{
  Ranks, Layout, pair_up, assign_rank, assign_ranks, new_ranks, slot_of, locate,
}
use dgswemv.Partitioner.Layout.RoundRobin.{IsFresh, slot_of-in_range, slot_of-apart}
use dgswemv.Partitioner.Submeshes.{
  Submeshes, modify, modify_mesh, mark_element, empty_submeshes, add_nodes, insert_element,
  assemble, mark_submesh, mark_face, mark_side, mark_edge, mark_edges,
}
use dgswemv.Partitioner.Submeshes.Lookup.{view}
use dgswemv.Partitioner.Submeshes.Assembly.{assemble-view_empty}
use dgswemv.Partitioner.Submeshes.Marking.{type_at, raise, cut}
use dgswemv.Partitioner.Partition.{layout_of, partition}
use dgswemv.Partitioner.Weights.Sums.{IsInRange}
use dgswemv.Partitioner.Partition.Places.{layout_of-apart}
use dgswemv.Partitioner.Partition.Result.{partition-type_at}

-- A partitioning that deals the first node to part 0 and the second to part 1, if there is one.
abbrev by_turns : Metis ℕ
by_turns = record {
  kway = λ xs ys ws es ncon nparts imbalance. 0 ∷ (if leb nparts 1 then 0 else 1) ∷ [];
  target = 4;
  to_int64 = λ d. d;
}

abbrev first_element : ElementMetaData
first_element = record {
  node_ids = 1 ∷ 2 ∷ 3 ∷ [];
  neighbor_ids = 2 ∷ default_id ∷ default_id ∷ [];
  boundary_types = 128 ∷ 0 ∷ 0 ∷ [];
}

abbrev second_element : ElementMetaData
second_element = record {
  node_ids = 2 ∷ 4 ∷ 3 ∷ [];
  neighbor_ids = default_id ∷ 1 ∷ default_id ∷ [];
  boundary_types = 0 ∷ 128 ∷ 0 ∷ [];
}

abbrev pair_of_elements : Elements
pair_of_elements = (1, first_element) ∷ (2, second_element) ∷ []

there : find_key pair_of_elements 1 ≡ some first_element
unfolding find_key
there = refl

at : get_elem? first_element.neighbor_ids 0 ≡ some 2
at = refl

abbrev corner : ℕ → Coordinates ℕ
corner x = record { x = x; y = 0; z = 0 }

abbrev corners : List (ℕ × Coordinates ℕ)
corners = (1, corner 1) ∷ (2, corner 2) ∷ (3, corner 3) ∷ (4, corner 4) ∷ []

abbrev weights : List (ℕ × List ℕ)
weights = (1, 1 ∷ []) ∷ (2, 1 ∷ []) ∷ []

abbrev layout : Layout
layout = record {
  elt2partition = (1, 0) ∷ (2, 1) ∷ [];
  ranks = record {
    local_partition_counter = 1 ∷ 1 ∷ [];
    local_rank_counter = 0 ∷ [];
    partition2rank = (1, 1) ∷ (0, 0) ∷ [];
    partition2local_partition = 0 ∷ 0 ∷ [];
  };
}

plan : layout_of by_turns pair_of_elements weights 2 1 2 true ≡ some layout
unfolding layout_of find_key put_key find_pair contains add connect edge_sets insert sort sort_sets
    first_size all_of_size node_ids build neighbors_of xadj xadj_from adj adj_from mapping_from
    row_of node_wgts node_wgts_from edge_wgts edge_wgts_from edge_weight add_weight max_abs
    scale_to_int64 metis_part put_pair element_weights add_edges edge_weights_from edge_weights
    add_vectors submesh_weights submesh_edges pair_up assign_rank assign_ranks new_ranks
plan = refl

range : IsInRange by_turns
range xs ys ws es ncon nparts imbalance pos = elim (Bool-cases (leb nparts 1)) [
  | inl e ↦ rw e (pos, (pos, tt))
  | inr e ↦ rw e (pos, (ground arith, tt))
]

weighted_first : find_key weights 1 ≢ none
unfolding find_key
weighted_first = cc

weighted_second : find_key weights 2 ≢ none
unfolding find_key
weighted_second = cc

in_zero : find_key layout.elt2partition 1 ≡ some 0
unfolding find_key
in_zero = refl

in_one : find_key layout.elt2partition 2 ≡ some 1
unfolding find_key
in_one = refl

layout_of-apart_example : ¬ (locate layout 1 ≡ locate layout 2)
layout_of-apart_example =
    layout_of-apart by_turns pair_of_elements weights 2 1 2 true layout 1 2 0 1 range (omega arith)
      (omega arith) (omega arith) plan weighted_first weighted_second in_zero in_one (omega arith)

abbrev empties : List ℕ
empties = 1 ∷ 1 ∷ []

abbrev second_corners : List (ℕ × Coordinates ℕ)
second_corners = (3, corner 3) ∷ (4, corner 4) ∷ (2, corner 2) ∷ []

abbrev assembled : Submeshes ℕ
assembled =
    (record {
      elements = (1, first_element) ∷ [];
      nodes = (3, corner 3) ∷ (2, corner 2) ∷ (1, corner 1) ∷ [];
    }
      ∷ [])
    ∷ (record { elements = (2, second_element) ∷ []; nodes = second_corners } ∷ [])
    ∷ []

abbrev marked : Submeshes ℕ
marked =
    (record {
      elements =
          (
            1,
            record {
              node_ids = 1 ∷ 2 ∷ 3 ∷ [];
              neighbor_ids = 2 ∷ default_id ∷ default_id ∷ [];
              boundary_types = distributed 128 ∷ 0 ∷ 0 ∷ [];
            },
          )
          ∷ [];
      nodes = (3, corner 3) ∷ (2, corner 2) ∷ (1, corner 1) ∷ [];
    }
      ∷ [])
    ∷ (record {
      elements =
          (
            2,
            record {
              node_ids = 2 ∷ 4 ∷ 3 ∷ [];
              neighbor_ids = default_id ∷ 1 ∷ default_id ∷ [];
              boundary_types = 0 ∷ distributed 128 ∷ 0 ∷ [];
            },
          )
          ∷ [];
      nodes = second_corners;
    }
        ∷ [])
    ∷ []

assemble_pair : assemble layout corners pair_of_elements (empty_submeshes empties) ≡ some assembled
unfolding assemble empty_submeshes insert_element add_nodes modify modify_mesh locate slot_of
    find_key
assemble_pair = refl

mark_pair :
    mark_edges layout pair_of_elements (edge_weights {D = ℕ} pair_of_elements) assembled
    ≡ some marked
unfolding edge_weights edge_weights_from add_edges put_pair mark_edges mark_edge mark_side mark_face
    mark_submesh mark_element modify modify_mesh locate slot_of find_key put_key distributed
mark_pair = refl

partition_pair : partition by_turns corners pair_of_elements weights 2 1 2 true ≡ some marked
unfolding partition
partition_pair = rw (plan, assemble_pair) mark_pair

partition-type_at_example :
    type_at layout marked 1 0 ≡ raise (cut layout 1 2) (get_elem? first_element.boundary_types 0)
partition-type_at_example =
    partition-type_at by_turns corners pair_of_elements weights 2 1 2 true layout marked 1 0 2
      first_element plan partition_pair there at (omega arith) (omega arith)

assemble-view_empty_example : view layout assembled 2 ≡ find_key pair_of_elements 2
assemble-view_empty_example =
    assemble-view_empty layout corners pair_of_elements empties assembled 2 assemble_pair

abbrev dealt : List (ℕ × ℕ)
dealt = (0, 0) ∷ (1, 0) ∷ []

fresh : IsFresh 2 1 dealt
unfolding find_key
fresh = (omega arith, omega arith, refl, (omega arith, omega arith, refl, tt))

abbrev ranks : Ranks
ranks = assign_ranks 2 (new_ranks 2 1 2) dealt

zero_there : find_key dealt 0 ≢ none
unfolding find_key
zero_there h = cc

one_there : find_key dealt 1 ≢ none
unfolding find_key
one_there h = cc

slot_of-in_range_example :
    ((slot_of ranks 1).rank < 1 * 2)
    × ((slot_of ranks 1).place < get_or ranks.local_partition_counter (slot_of ranks 1).rank 0)
slot_of-in_range_example = slot_of-in_range 2 1 2 dealt (omega arith) fresh 1 one_there

slot_of-apart_example : ¬ (slot_of ranks 0 ≡ slot_of ranks 1)
slot_of-apart_example =
    slot_of-apart 2 1 2 dealt (omega arith) fresh 0 1 zero_there one_there (omega arith)

abbrev one_edge : EdgeWeights ℕ
one_edge = ((1, 2), 5) ∷ []

abbrev graph : CsrMat ℕ
graph = record {
  constraint_number = 1;
  edges = (1, 2 ∷ []) ∷ (2, 1 ∷ []) ∷ [];
  nodes = 1 ∷ 2 ∷ [];
  node_wgts_map = weights;
  edge_wgts_map = one_edge;
}

build-graph : build weights one_edge ≡ some graph
unfolding build all_of_size first_size node_ids sort insert sort_sets edge_sets connect add contains
build-graph = refl

adj-graph : adj graph ≡ some (1 ∷ 0 ∷ [])
unfolding adj adj_from row_of mapping_from neighbors_of find_key
adj-graph = refl

rows_of-adj_example :
    some (rows_of (xadj graph) (1 ∷ 0 ∷ []))
    ≡ index_rows graph.edges (mapping_from 0 graph.nodes) graph.nodes
rows_of-adj_example = rows_of-adj graph (1 ∷ 0 ∷ []) adj-graph

build-linked_example : contains (neighbors_of graph.edges 2) 1 ≡ linked one_edge 2 1
build-linked_example = build-linked weights one_edge graph 2 1 build-graph

ends_weighted : (a b : ℕ) → linked one_edge a b ≡ true → contains (node_ids weights) b ≡ true
unfolding contains node_ids find_pair
ends_weighted a b h = ground arith

adj_total_example : (flat : List ℕ) × (adj graph ≡ some flat)
adj_total_example = adj_total weights one_edge graph build-graph ends_weighted
