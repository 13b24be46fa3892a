-- ===== src/Partitioner/Csr.antt =====
-- `CSRMat` (partitioner/csrmat.hpp): a weighted graph, and the compressed rows that METIS takes. An
-- unordered map is an association list, an unordered set a list; `none` is an exception of `at`.
pub mod Rows
pub mod Edges
pub mod Order
use dgswemv.Prelude.{
  ℕ, zero, suc, ◌+◌, ◌==◌, leb, if◌then◌else◌, Bool, true, false, ◌&&◌, ◌||◌, Option, none, some,
  List, [], ◌∷◌, ◌++◌, map, length, combine,
}
use dgswemv.Double.{Double}
use dgswemv.Adcirc.Boundary.{find_key}

-- `std::pair<int, int>` as a key.
abbrev pub EdgeWeights : Type 0 → Type 0
EdgeWeights D = List ((ℕ × ℕ) × D)

abbrev pub same_pair : ℕ × ℕ → ℕ × ℕ → Bool
same_pair (a, b) (c, d) = a == c && b == d

unfoldable pub find_pair {ℓ} : {A : Type ℓ} → List ((ℕ × ℕ) × A) → ℕ × ℕ → Option A
find_pair [] key = none
find_pair ((k, v) ∷ rest) key = if same_pair k key then some v else find_pair rest key

unfoldable pub contains : List ℕ → ℕ → Bool
contains [] x = false
contains (y ∷ ys) x = y == x || contains ys x

unfoldable pub add : ℕ → List ℕ → List ℕ
add x set = if contains set x then set else x ∷ set

-- `edge_sets[src].insert(dst)`
unfoldable pub connect : List (ℕ × List ℕ) → ℕ → ℕ → List (ℕ × List ℕ)
connect [] src dst = (src, dst ∷ []) ∷ []
connect ((k, set) ∷ rest) src dst =
    if k == src then (k, add dst set) ∷ rest else (k, set) ∷ connect rest src dst

-- The loop over the edge weights: each edge is entered in both directions.
unfoldable pub edge_sets {ℓ} :
    {A : Type ℓ} → List (ℕ × List ℕ) → List ((ℕ × ℕ) × A) → List (ℕ × List ℕ)
edge_sets sets [] = sets
edge_sets sets (((src, dst), w) ∷ rest) = edge_sets (connect (connect sets src dst) dst src) rest

-- `std::sort`
unfoldable pub insert : ℕ → List ℕ → List ℕ
insert x [] = x ∷ []
insert x (y ∷ ys) = if leb x y then x ∷ y ∷ ys else y ∷ insert x ys

unfoldable pub sort : List ℕ → List ℕ
sort [] = []
sort (x ∷ xs) = insert x (sort xs)

pub record CsrMat (D : Type 0) : Type 0 where
  pub constraint_number : ℕ
  pub edges : List (ℕ × List ℕ)
  pub nodes : List ℕ
  pub node_wgts_map : List (ℕ × List D)
  pub edge_wgts_map : EdgeWeights D

unfoldable pub sort_sets : List (ℕ × List ℕ) → List (ℕ × List ℕ)
sort_sets [] = []
sort_sets ((k, set) ∷ rest) = (k, sort set) ∷ sort_sets rest

module _ {D : Type 0} where
  -- The number of weights of the first node; with no node the code leaves it unset.
  unfoldable pub first_size : List (ℕ × List D) → ℕ
  first_size [] = 0
  first_size ((id, ws) ∷ rest) = length ws

  unfoldable pub all_of_size : ℕ → List (ℕ × List D) → Bool
  all_of_size n [] = true
  all_of_size n ((id, ws) ∷ rest) = length ws == n && all_of_size n rest

  unfoldable pub node_ids : List (ℕ × List D) → List ℕ
  node_ids [] = []
  node_ids ((id, ws) ∷ rest) = id ∷ node_ids rest

  -- The constructor, with the exception for two nodes with different numbers of constraints.
  unfoldable pub build : List (ℕ × List D) → EdgeWeights D → Option (CsrMat D)
  build nw ew =
      if all_of_size (first_size nw) nw
      then some (record {
        constraint_number = first_size nw;
        edges = sort_sets (edge_sets [] ew);
        nodes = sort (node_ids nw);
        node_wgts_map = nw;
        edge_wgts_map = ew;
      })
      else none

-- `_edges.count(src) ? _edges.at(src) : {}`
unfoldable pub neighbors_of : List (ℕ × List ℕ) → ℕ → List ℕ
neighbors_of edges src = elim (find_key edges src) [ none ↦ [] | some dsts ↦ dsts ]

unfoldable pub xadj_from : List (ℕ × List ℕ) → ℕ → List ℕ → List ℕ
xadj_from edges back [] = []
xadj_from edges back (id ∷ ids) =
    let next = back + length (neighbors_of edges id) in next ∷ xadj_from edges next ids

unfoldable pub xadj : {D : Type 0} → CsrMat D → List ℕ
xadj g = 0 ∷ xadj_from g.edges 0 g.nodes

-- `mapping[_nodes[i]] = i`; the nodes are distinct.
unfoldable pub mapping_from : ℕ → List ℕ → List (ℕ × ℕ)
mapping_from i [] = []
mapping_from i (id ∷ ids) = (id, i) ∷ mapping_from (suc i) ids

-- The row of one node: `mapping.at(dst)` for its neighbours.
unfoldable pub row_of : List (ℕ × ℕ) → List ℕ → Option (List ℕ)
row_of mapping [] = some []
row_of mapping (dst ∷ dsts) = combine ◌∷◌ (find_key mapping dst) (row_of mapping dsts)

unfoldable pub adj_from : List (ℕ × List ℕ) → List (ℕ × ℕ) → List ℕ → Option (List ℕ)
adj_from edges mapping [] = some []
adj_from edges mapping (src ∷ srcs) =
    combine ◌++◌ (row_of mapping (neighbors_of edges src)) (adj_from edges mapping srcs)

unfoldable pub adj : {D : Type 0} → CsrMat D → Option (List ℕ)
adj g = adj_from g.edges (mapping_from 0 g.nodes) g.nodes

module _ {D : Type 0} ⦃double : Double D⦄ where
  open double use {of_ratio, plus}

  -- `if (_edge_wgts_map.count(id)) w += _edge_wgts_map.at(id);`
  unfoldable pub add_weight : EdgeWeights D → ℕ × ℕ → D → D
  add_weight ew key w = elim (find_pair ew key) [ none ↦ w | some v ↦ plus w v ]

  unfoldable pub edge_weight : EdgeWeights D → ℕ → ℕ → D
  edge_weight ew src dst = add_weight ew (dst, src) (add_weight ew (src, dst) (of_ratio 0 1))

  unfoldable pub edge_wgts_from : CsrMat D → List ℕ → List D
  edge_wgts_from g [] = []
  edge_wgts_from g (src ∷ srcs) =
      map (edge_weight g.edge_wgts_map src) (neighbors_of g.edges src) ++ edge_wgts_from g srcs

  unfoldable pub edge_wgts : CsrMat D → List D
  edge_wgts g = edge_wgts_from g g.nodes

-- `_node_wgts_map.at(id).at(c)` for every node and constraint; all vectors have the same size.
unfoldable pub node_wgts_from : {D : Type 0} → List (ℕ × List D) → List ℕ → Option (List D)
node_wgts_from nw [] = some []
node_wgts_from nw (id ∷ ids) = combine ◌++◌ (find_key nw id) (node_wgts_from nw ids)

unfoldable pub node_wgts : {D : Type 0} → CsrMat D → Option (List D)
node_wgts g = node_wgts_from g.node_wgts_map g.nodes
