-- ===== src/Partitioner/Csr/Edges.antt =====
-- Which nodes `CSRMat` connects (partitioner/csrmat.hpp).
use dgswemv.Prelude.{
  ℕ, suc, ◌≡◌, ◌≢◌, inl, inr, refl, ap, ◌∙◌, sym, subst, Bool, true, false, ◌&&◌, ◌||◌, ◌==◌, none,
  some, List, [], ◌∷◌, ◌++◌, arith, Bool-cases, Option-cases,
}
use dgswemv.Adcirc.Boundary.{find_key}
use dgswemv.Partitioner.Csr.{
  CsrMat, EdgeWeights, contains, add, connect, edge_sets, insert, sort, sort_sets, node_ids, build,
  neighbors_of, mapping_from, row_of, adj_from, adj,
}

-- One of the weighted edges joins the two nodes, in one direction or the other.
abbrev pub linked {ℓ} : {A : Type ℓ} → List ((ℕ × ℕ) × A) → ℕ → ℕ → Bool
linked [] a b = false
linked (((src, dst), w) ∷ rest) a b =
    (src == a && dst == b) || (dst == a && src == b) || linked rest a b

contains-add : (x y : ℕ) (set : List ℕ) → contains (add x set) y ≡ (x == y || contains set y)
unfolding add contains
contains-add x y set = elim (Bool-cases (contains set x)) [
  | inl e ↦ elim (Bool-cases (x == y)) [
    | inl same ↦
        let at : x ≡ y = ground arith in rw (e, same) (subst (λ z. contains set z ≡ true) at e)
    | inr apart ↦ rw (e, apart)
  ]
  | inr e ↦ rw e
]

neighbors-connect :
    (sets : List (ℕ × List ℕ)) (src dst a b : ℕ)
    → contains (neighbors_of (connect sets src dst) a) b
      ≡ ((src == a && dst == b) || contains (neighbors_of sets a) b)
unfolding connect neighbors_of find_key contains
neighbors-connect [] src dst a b = ground arith
neighbors-connect ((k, set) ∷ rest) src dst a b =
    ground (arith, neighbors-connect rest src dst a b, contains-add dst b set)

neighbors-edge_sets {ℓ} :
    {A : Type ℓ} (ew : List ((ℕ × ℕ) × A)) (sets : List (ℕ × List ℕ)) (a b : ℕ)
    → contains (neighbors_of (edge_sets sets ew) a) b
      ≡ (linked ew a b || contains (neighbors_of sets a) b)
unfolding edge_sets
neighbors-edge_sets [] sets a b = refl
neighbors-edge_sets (((src, dst), w) ∷ rest) sets a b = ground (
  arith,
  neighbors-edge_sets rest (connect (connect sets src dst) dst src) a b,
  neighbors-connect (connect sets src dst) dst src a b,
  neighbors-connect sets src dst a b,
)

pub contains-insert : (x y : ℕ) (ys : List ℕ) → contains (insert x ys) y ≡ (x == y || contains ys y)
unfolding insert contains
contains-insert x y [] = refl
contains-insert x y (z ∷ zs) = ground (arith, contains-insert x y zs)

pub contains-sort : (y : ℕ) (xs : List ℕ) → contains (sort xs) y ≡ contains xs y
unfolding sort contains
contains-sort y [] = refl
contains-sort y (x ∷ xs) = ground (arith, contains-insert x y (sort xs), contains-sort y xs)

neighbors-sort_sets :
    (sets : List (ℕ × List ℕ)) (a : ℕ)
    → neighbors_of (sort_sets sets) a ≡ sort (neighbors_of sets a)
unfolding sort_sets neighbors_of find_key sort
neighbors-sort_sets [] a = refl
neighbors-sort_sets ((k, set) ∷ rest) a = ground (arith, neighbors-sort_sets rest a)

module _ {D : Type 0} (nw : List (ℕ × List D)) (ew : EdgeWeights D) (g : CsrMat D) where
  pub build_inv :
      build nw ew ≡ some g
      → (g.edges ≡ sort_sets (edge_sets [] ew))
        × (g.nodes ≡ sort (node_ids nw))
        × (g.node_wgts_map ≡ nw)
        × (g.edge_wgts_map ≡ ew)
  unfolding build
  build_inv h = ground arith

  -- In a graph that is built, `b` stands among the neighbours of `a` exactly if one of the weighted
  -- edges joins the two, in one direction or the other.
  pub build-linked :
      (a b : ℕ) → build nw ew ≡ some g → contains (neighbors_of g.edges a) b ≡ linked ew a b
  unfolding contains neighbors_of find_key
  build-linked a b h =
      let edges = (build_inv h).0 in
      ap (λ e. contains (neighbors_of e a) b) edges
      ∙ ap (λ l. contains l b) (neighbors-sort_sets (edge_sets [] ew) a)
      ∙ contains-sort b (neighbors_of (edge_sets [] ew) a)
      ∙ neighbors-edge_sets ew [] a b
      ∙ no_more (linked ew a b)
    where
      no_more : (c : Bool) → (c || contains (neighbors_of [] a) b) ≡ c
      no_more true = refl
      no_more false = refl

row_of_total :
    (mapping : List (ℕ × ℕ)) (dsts : List ℕ)
    → ((b : ℕ) → contains dsts b ≡ true → find_key mapping b ≢ none)
    → (row : List ℕ) × (row_of mapping dsts ≡ some row)
unfolding row_of contains
row_of_total mapping [] h = ([], refl)
row_of_total mapping (dst ∷ dsts) h = elim (Option-cases (find_key mapping dst)) [
  | inl e ↦ absurd (h dst (ground arith) e)
  | inr (i, e) ↦
      let (row, e') = row_of_total mapping dsts (λ b c. h b (ground arith)) in (i ∷ row, rw (e, e'))
]

adj_from_total :
    (edges : List (ℕ × List ℕ)) (mapping : List (ℕ × ℕ)) (srcs : List ℕ)
    → ((a b : ℕ) → contains (neighbors_of edges a) b ≡ true → find_key mapping b ≢ none)
    → (flat : List ℕ) × (adj_from edges mapping srcs ≡ some flat)
unfolding adj_from
adj_from_total edges mapping [] h = ([], refl)
adj_from_total edges mapping (src ∷ srcs) h =
    let (row, e) = row_of_total mapping (neighbors_of edges src) (h src) in
    let (flat, e') = adj_from_total edges mapping srcs h in (row ++ flat, rw (e, e'))

mapping_from_total :
    (i b : ℕ) (ids : List ℕ) → contains ids b ≡ true → find_key (mapping_from i ids) b ≢ none
unfolding mapping_from find_key contains
mapping_from_total i b [] h = cc
mapping_from_total i b (id ∷ ids) h = ground (arith, mapping_from_total (suc i) b ids)

-- If every weighted edge ends at nodes with a weight, `adj` of the graph that is built returns.
pub adj_total :
    {D : Type 0} (nw : List (ℕ × List D)) (ew : EdgeWeights D) (g : CsrMat D)
    → build nw ew ≡ some g
    → ((a b : ℕ) → linked ew a b ≡ true → contains (node_ids nw) b ≡ true)
    → (flat : List ℕ) × (adj g ≡ some flat)
unfolding adj
adj_total nw ew g h ends =
    let nodes = (build_inv nw ew g h).1 in
    adj_from_total g.edges (mapping_from 0 g.nodes) g.nodes (λ a b e.
      mapping_from_total 0 b g.nodes (
        ap (λ l. contains l b) nodes
        ∙ contains-sort b (node_ids nw)
        ∙ ends a b (sym (build-linked nw ew g a b h) ∙ e)))
