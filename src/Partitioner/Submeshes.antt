-- ===== src/Partitioner/Submeshes.antt =====
-- The submeshes: their assembly, and the marking of the edges between partitions
-- (partitioner/partition.cpp). `none` is an exception of `at`, or an access past the end of a vector.
pub mod Lookup
pub mod Assembly
pub mod Marking
use dgswemv.Prelude.{
  ℕ, zero, suc, ◌==◌, if◌then◌else◌, Option, none, some, List, [], ◌∷◌, map, get_or, set, replicate,
  bind,
}
use dgswemv.BoundaryTypes.{distributed}
use dgswemv.Adcirc.{Coordinates}
use dgswemv.Adcirc.Boundary.{find_key}
use dgswemv.Metadata.{ElementMetaData, put_key}
use dgswemv.Partitioner.Csr.{EdgeWeights}
use dgswemv.Partitioner.Weights.{Elements}
use dgswemv.Partitioner.Layout.{Layout, Slot, locate}

unfoldable pub modify {ℓ} : {A : Type ℓ} → List A → ℕ → (A → Option A) → Option (List A)
modify [] i f = none
modify (x ∷ xs) zero f = bind (f x) (λ y. some (y ∷ xs))
modify (x ∷ xs) (suc i) f = bind (modify xs i f) (λ ys. some (x ∷ ys))

-- `curr_elt.boundary_type[k] = distributed(curr_elt.boundary_type[k])`
unfoldable pub mark_element : ℕ → ElementMetaData → ElementMetaData
mark_element k e = record e {
  boundary_types = set e.boundary_types k (distributed (get_or e.boundary_types k 0));
}

pub record Submesh (D : Type 0) : Type 0 where
  pub elements : Elements
  pub nodes : List (ℕ × Coordinates D)

abbrev pub Submeshes : Type 0 → Type 0
Submeshes D = List (List (Submesh D))

module _ {D : Type 0} where
  unfoldable pub modify_mesh :
      Submeshes D → Slot → (Submesh D → Option (Submesh D)) → Option (Submeshes D)
  modify_mesh ms s f = modify ms s.rank (λ row. modify row s.place f)

  -- `submeshes[sm].resize(local_partition_counter[sm])`
  unfoldable pub empty_submeshes : List ℕ → Submeshes D
  empty_submeshes counts = map (λ n. replicate n (record { elements = []; nodes = [] })) counts

  -- `submesh.nodes[id] = mesh_meta.nodes.at(id)` for the nodes of an element.
  unfoldable pub add_nodes :
      List (ℕ × Coordinates D)
      → List ℕ
      → List (ℕ × Coordinates D)
      → Option (List (ℕ × Coordinates D))
  add_nodes all [] nodes = some nodes
  add_nodes all (id ∷ ids) nodes = bind (find_key all id) (λ c. add_nodes all ids ((id, c) ∷ nodes))

  -- `elements.insert(elt)`, which changes nothing if the number is there, and the nodes.
  unfoldable pub insert_element :
      List (ℕ × Coordinates D) → ℕ → ElementMetaData → Submesh D → Option (Submesh D)
  insert_element all id e m = bind (add_nodes all e.node_ids m.nodes) (λ nodes. some (record {
    elements = elim (find_key m.elements id) [ none ↦ (id, e) ∷ m.elements | some _ ↦ m.elements ];
    nodes = nodes;
  }))

  -- "assemble submeshes"
  unfoldable pub assemble :
      Layout → List (ℕ × Coordinates D) → Elements → Submeshes D → Option (Submeshes D)
  assemble l all [] ms = some ms
  assemble l all ((id, e) ∷ rest) ms =
      bind (locate l id)
        (λ s. bind (modify_mesh ms s (insert_element all id e)) (assemble l all rest))

  unfoldable pub mark_submesh : ℕ → ℕ → Submesh D → Option (Submesh D)
  mark_submesh elt k m =
      bind (find_key m.elements elt)
        (λ e. some (record m { elements = put_key m.elements elt (mark_element k e) }))

  unfoldable pub mark_face : Slot → ℕ → ElementMetaData → ℕ → ℕ → Submeshes D → Option (Submeshes D)
  mark_face s elt meta other k ms =
      if other == get_or meta.neighbor_ids k 0
      then modify_mesh ms s (mark_submesh elt k)
      else some ms

  -- The loop over the three faces of one side of an edge.
  unfoldable pub mark_side : Layout → Elements → ℕ → ℕ → Submeshes D → Option (Submeshes D)
  mark_side l elements elt other ms = bind (locate l elt) (λ s.
      bind (find_key elements elt) (λ meta.
        bind (mark_face s elt meta other 0 ms) (λ ms1.
          bind (mark_face s elt meta other 1 ms1) (λ ms2. mark_face s elt meta other 2 ms2))))

  unfoldable pub mark_edge : Layout → Elements → ℕ → ℕ → Submeshes D → Option (Submeshes D)
  mark_edge l elements a b ms = bind (find_key l.elt2partition a) (λ p.
      bind (find_key l.elt2partition b) (λ q.
        if p == q then some ms else bind (mark_side l elements a b ms) (mark_side l elements b a)))

  -- "update boundaries for split edges"
  unfoldable pub mark_edges : Layout → Elements → EdgeWeights D → Submeshes D → Option (Submeshes D)
  mark_edges l elements [] ms = some ms
  mark_edges l elements (((a, b), w) ∷ rest) ms =
      bind (mark_edge l elements a b ms) (mark_edges l elements rest)
