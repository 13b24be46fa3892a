-- ===== src/Partitioner/Partition.antt =====
-- `partition` (partitioner/partition.cpp); the printed statistics and the names of the submeshes are
-- left out.
pub mod Result
pub mod Places
use dgswemv.Prelude.{ℕ, Bool, if◌then◌else◌, Option, some, List, [], bind}
use dgswemv.Double.{Double}
use dgswemv.Adcirc.{Coordinates}
use dgswemv.Partitioner.Csr.{EdgeWeights, build}
use dgswemv.Partitioner.Weights.{
  Metis, Elements, metis_part, element_weights, edge_weights, submesh_weights, submesh_edges,
}
use dgswemv.Partitioner.Layout.{Layout, pair_up, assign_ranks, new_ranks}
use dgswemv.Partitioner.Submeshes.{Submeshes, empty_submeshes, assemble, mark_edges}

module _ {D : Type 0} ⦃double : Double D⦄ (metis : Metis D) where
  -- Up to the ranks: the two graphs, their partitions, and the dealing of partitions to ranks.
  unfoldable pub layout_of :
      Elements
      → List (ℕ × List D)
      → (num_partitions num_nodes ranks_per_locality : ℕ) → Bool
      → Option Layout
  layout_of elements weights num_partitions num_nodes rpl rank_balanced =
      let edges : EdgeWeights D = edge_weights elements in
      bind (build (if rank_balanced then weights else element_weights elements) edges) (λ graph.
        bind (metis_part metis graph num_partitions (double.of_ratio 105 100)) (λ part.
          bind (pair_up graph.nodes part) (λ elt2partition.
            bind (submesh_weights elt2partition [] weights) (λ sums.
              bind (submesh_edges elt2partition [] edges) (λ sum_edges.
                bind (build sums sum_edges) (λ submesh_graph.
                  bind (metis_part metis submesh_graph num_nodes (double.of_ratio 102 100))
                    (λ node_part. bind (pair_up submesh_graph.nodes node_part) (λ partition2node.
                      some (record {
                        elt2partition = elt2partition;
                        ranks =
                            assign_ranks rpl (new_ranks num_partitions num_nodes rpl)
                              partition2node;
                      })))))))))

  unfoldable pub partition :
      List (ℕ × Coordinates D)
      → Elements
      → List (ℕ × List D)
      → (num_partitions num_nodes ranks_per_locality : ℕ) → Bool
      → Option (Submeshes D)
  partition all elements weights num_partitions num_nodes rpl rank_balanced =
      bind (layout_of elements weights num_partitions num_nodes rpl rank_balanced) (λ l.
        bind (assemble l all elements (empty_submeshes l.ranks.local_partition_counter))
          (mark_edges l elements (edge_weights elements)))
