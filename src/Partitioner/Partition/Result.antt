-- ===== src/Partitioner/Partition/Result.antt =====
-- What `partition` returns (partitioner/partition.cpp).
use dgswemv.Prelude.{
  ℕ, ◌≡◌, ◌≢◌, ◌<◌, ap, ◌∙◌, sym, Bool, some, List, get_elem?, bind, bind-eq-some,
}
use dgswemv.Double.{Double}
use dgswemv.Adcirc.{Coordinates}
use dgswemv.Adcirc.Boundary.{find_key}
use dgswemv.Metadata.{ElementMetaData, default_id}
use dgswemv.Partitioner.Weights.{Metis, Elements}
use dgswemv.Partitioner.Layout.{Layout}
use dgswemv.Partitioner.Submeshes.{Submeshes, empty_submeshes, assemble}
use dgswemv.Partitioner.Submeshes.Assembly.{assemble-view_empty}
use dgswemv.Partitioner.Submeshes.Marking.{type_at, raise, cut, mark_edges-cut}
use dgswemv.Partitioner.Partition.{layout_of, partition}

module _ {D : Type 0} ⦃double : Double D⦄ (metis : Metis D) where
  -- Wherever `partition` returns, whatever METIS answers: a face of an element of the mesh that
  -- has a neighbour has, in the submesh where the layout puts the element, the boundary type it has
  -- in the mesh, raised once by the distributed offset exactly if the neighbour is in another
  -- partition.
  pub partition-type_at :
      (all : List (ℕ × Coordinates D)) (elements : Elements) (weights : List (ℕ × List D))
      (num_partitions num_nodes rpl : ℕ) (rank_balanced : Bool) (l : Layout) (ms : Submeshes D)
      (e k n : ℕ) (meta : ElementMetaData)
      → layout_of metis elements weights num_partitions num_nodes rpl rank_balanced ≡ some l
      → partition metis all elements weights num_partitions num_nodes rpl rank_balanced ≡ some ms
      → find_key elements e ≡ some meta
      → get_elem? meta.neighbor_ids k ≡ some n
      → k < 3
      → n ≢ default_id
      → type_at l ms e k ≡ raise (cut l e n) (get_elem? meta.boundary_types k)
  unfolding partition type_at
  partition-type_at all elements weights np nn rpl rb l ms e k n meta plan h there at low real =
      let (l', plan', h1) = bind-eq-some (layout_of metis elements weights np nn rpl rb) _ h in
      let same : l' ≡ l = some_eq (sym plan' ∙ plan) in
      let (ms0, built, marked) =
        bind-eq-some (assemble l' all elements (empty_submeshes l'.ranks.local_partition_counter)) _
          h1 in
      ap (λ x. type_at x ms e k) (sym same)
      ∙ mark_edges-cut l' elements ms0 ms e k n meta there at low real marked
      ∙ ap (raise (cut l' e n)) (
          ap (λ o. bind o (λ x. get_elem? x.boundary_types k))
            (assemble-view_empty l' all elements l'.ranks.local_partition_counter ms0 e built
              ∙ there))
      ∙ ap (λ x. raise (cut x e n) (get_elem? meta.boundary_types k)) same
    where
      some_eq : {u v : Layout} → some u ≡ some v → u ≡ v
      some_eq q = cc
