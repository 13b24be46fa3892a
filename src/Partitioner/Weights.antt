-- ===== src/Partitioner/Weights.antt =====
-- The graphs that are partitioned and their weights (partitioner/partition.cpp), and `metis_part`
-- (partitioner/csrmat.hpp). METIS is a parameter. `none` is an exception.
pub mod Edges
pub mod Sums
use dgswemv.Prelude.{
  ℕ, ◌==◌, min, max, if◌then◌else◌, Bool, ◌||◌, Option, none, some, List, [], ◌∷◌, map, length,
  replicate, bind,
}
use dgswemv.Double.{Double}
use dgswemv.Adcirc.Boundary.{find_key}
use dgswemv.Metadata.{ElementMetaData, default_id, put_key}
use dgswemv.Partitioner.Csr.{
  CsrMat, EdgeWeights, find_pair, xadj, adj, node_wgts, edge_wgts, same_pair,
}

-- `METIS_PartGraphKway` on `xadj`, `adj`, the weights of the nodes and of the edges, the numbers of
-- constraints and of parts, and the imbalance; and what the scaling of weights takes from the
-- standard library, `sqrt(max int64)` and the cast to `int64_t`.
pub record Metis (D : Type 0) : Type 0 where
  pub kway : List ℕ → List ℕ → List ℕ → List ℕ → ℕ → ℕ → D → List ℕ
  pub target : D
  pub to_int64 : D → ℕ

abbrev pub Elements : Type 0
Elements = List (ℕ × ElementMetaData)

module _ {D : Type 0} ⦃double : Double D⦄ (metis : Metis D) where
  open double use {of_ratio, times, quotient, abs, less}
  open metis use {kway, target, to_int64}

  unfoldable pub max_abs : List D → D → D
  max_abs [] largest = largest
  max_abs (v ∷ vs) largest = max_abs vs (if less largest (abs v) then abs v else largest)

  unfoldable pub scale_to_int64 : List D → List ℕ
  scale_to_int64 vs = map (λ v. to_int64 (times (quotient target (max_abs vs (of_ratio 0 1))) v)) vs

  unfoldable pub metis_part : CsrMat D → ℕ → D → Option (List ℕ)
  metis_part g nparts imbalance =
      if nparts == 1 || length g.nodes == 1
      then some (replicate (length g.nodes) 0)
      else if length g.nodes == 0
      then some []
      else bind (adj g) (λ neighbors. bind (node_wgts g) (λ weights. some (
          kway (xadj g) neighbors (scale_to_int64 weights) (scale_to_int64 (edge_wgts g))
            g.constraint_number nparts imbalance)))

-- `map[key] = value`
unfoldable pub put_pair {ℓ} : {A : Type ℓ} → List ((ℕ × ℕ) × A) → ℕ × ℕ → A → List ((ℕ × ℕ) × A)
put_pair [] key v = (key, v) ∷ []
put_pair ((k, u) ∷ rest) key v =
    if same_pair k key then (k, v) ∷ rest else (k, u) ∷ put_pair rest key v

module _ {D : Type 0} ⦃double : Double D⦄ where
  open double use {of_ratio, plus}

  abbrev pub one_weight : D
  one_weight = of_ratio 1 1

  unfoldable pub element_weights : Elements → List (ℕ × List D)
  element_weights [] = []
  element_weights ((id, e) ∷ rest) = (id, one_weight ∷ []) ∷ element_weights rest

  -- The edges of one element: the loop over its neighbours.
  unfoldable pub add_edges : EdgeWeights D → ℕ → List ℕ → EdgeWeights D
  add_edges ew id [] = ew
  add_edges ew id (n ∷ ns) =
      add_edges (if n == default_id then ew else put_pair ew (min id n, max id n) one_weight) id ns

  unfoldable pub edge_weights_from : EdgeWeights D → Elements → EdgeWeights D
  edge_weights_from ew [] = ew
  edge_weights_from ew ((id, e) ∷ rest) = edge_weights_from (add_edges ew id e.neighbor_ids) rest

  unfoldable pub edge_weights : Elements → EdgeWeights D
  edge_weights elements = edge_weights_from [] elements

  unfoldable pub add_vectors : List D → List D → List D
  add_vectors (a ∷ as') (b ∷ bs) = plus a b ∷ add_vectors as' bs
  add_vectors as' bs = as'

  -- "partition submeshes onto nodes": the weights of the elements, added up by partition.
  unfoldable pub submesh_weights :
      List (ℕ × ℕ) → List (ℕ × List D) → List (ℕ × List D) → Option (List (ℕ × List D))
  submesh_weights elt2partition sums [] = some sums
  submesh_weights elt2partition sums ((id, ws) ∷ rest) = bind (find_key elt2partition id) (λ p.
      submesh_weights elt2partition
        (elim (find_key sums p) [
          | none ↦ (p, ws) ∷ sums
          | some old ↦ put_key sums p (add_vectors old ws)
        ])
        rest)

  unfoldable pub submesh_edges :
      List (ℕ × ℕ) → EdgeWeights D → EdgeWeights D → Option (EdgeWeights D)
  submesh_edges elt2partition sums [] = some sums
  submesh_edges elt2partition sums (((a, b), w) ∷ rest) = bind (find_key elt2partition a) (λ p.
      bind (find_key elt2partition b) (λ q.
        submesh_edges elt2partition
          (elim (find_pair sums (min p q, max p q)) [
            | none ↦ ((min p q, max p q), w) ∷ sums
            | some old ↦ put_pair sums (min p q, max p q) (plus old w)
          ])
          rest))
