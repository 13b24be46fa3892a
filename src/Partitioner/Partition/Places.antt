-- ===== src/Partitioner/Partition/Places.antt =====
-- Where `partition` puts the elements (partitioner/partition.cpp).
use dgswemv.Prelude.{
  ℕ, ◌<◌, ◌≡◌, ◌≢◌, ap, subst, ◌∙◌, sym, Bool, if◌then◌else◌, Option, none, some, List, [],
  bind-eq-some,
}
use dgswemv.Double.{Double}
use dgswemv.Adcirc.Boundary.{find_key}
use dgswemv.Partitioner.Csr.{contains, sort, node_ids, build}
use dgswemv.Partitioner.Csr.Edges.{contains-sort, build_inv}
use dgswemv.Partitioner.Weights.{
  Metis, Elements, metis_part, edge_weights, element_weights, submesh_weights, submesh_edges,
}
use dgswemv.Partitioner.Layout.{Layout, Ranks, pair_up, assign_ranks, new_ranks, slot_of, locate}
use dgswemv.Partitioner.Layout.RoundRobin.{IsFresh, slot_of-apart}
use dgswemv.Partitioner.Partition.{layout_of}
use dgswemv.Partitioner.Csr.Order.{AllBelow, IsOnce, sort_below, sort-IsOnce}
use dgswemv.Partitioner.Layout.Pairing.{pair_up_present, pair_up_below, pair_up-IsFresh}
use dgswemv.Partitioner.Weights.Sums.{
  IsInRange, submesh_weights-IsGraded, submesh_weights-enters, metis_part_below,
}

module _ {D : Type 0} ⦃double : Double D⦄ where
  -- What `layout_of` deals: every partition once, and it and its node in range; and there is one
  -- for every element with a weight.
  layout_of_inv :
      (metis : Metis D) (elements : Elements) (weights : List (ℕ × List D)) (np nn rpl : ℕ)
      (rb : Bool) (l : Layout)
      → IsInRange metis
      → 0 < np
      → 0 < nn
      → layout_of metis elements weights np nn rpl rb ≡ some l
      → (ps : List (ℕ × ℕ)) × (l.ranks ≡ assign_ranks rpl (new_ranks np nn rpl) ps)
        × IsFresh np nn ps
        × ((e p : ℕ)
            → find_key weights e ≢ none
            → find_key l.elt2partition e ≡ some p
            → find_key ps p ≢ none)
  unfolding layout_of node_ids
  layout_of_inv metis elements weights np nn rpl rb l range pos pos' h =
      let (graph, _, h1) =
        bind-eq-some
          (build (if rb then weights else element_weights elements) (edge_weights elements)) _ h in
      let (part, e_part, h2) =
        bind-eq-some (metis_part metis graph np (double.of_ratio 105 100)) _ h1 in
      let (m, e_m, h3) = bind-eq-some (pair_up graph.nodes part) _ h2 in
      let (sums, e_sums, h4) = bind-eq-some (submesh_weights m [] weights) _ h3 in
      let (sum_edges, _, h5) = bind-eq-some (submesh_edges m [] (edge_weights elements)) _ h4 in
      let (g, e_g, h6) = bind-eq-some (build sums sum_edges) _ h5 in
      let (node_part, e_node, h7) =
        bind-eq-some (metis_part metis g nn (double.of_ratio 102 100)) _ h6 in
      let (ps, e_ps, h8) = bind-eq-some (pair_up g.nodes node_part) _ h7 in
      let (same_elt, same_ranks) = parts _ _ h8 in
      let low : (e p : ℕ) → find_key m e ≡ some p → p < np = λ e p at.
        pair_up_below np graph.nodes part m e p e_m
          (metis_part_below metis graph np (double.of_ratio 105 100) part range pos e_part) at in
      let (once, below) = submesh_weights-IsGraded np m weights [] sums low e_sums (tt, tt) in
      let nodes : g.nodes ≡ sort (node_ids sums) = (build_inv sums sum_edges g e_g).1 in
      (
        ps,
        same_ranks,
        pair_up-IsFresh np nn g.nodes node_part ps e_ps
            (subst IsOnce (sym nodes) (sort-IsOnce (node_ids sums) once))
            (subst (AllBelow np) (sym nodes) (sort_below np (node_ids sums) below))
            (metis_part_below metis g nn (double.of_ratio 102 100) node_part range pos' e_node),
        λ e p weighted at. pair_up_present g.nodes node_part ps p e_ps (
            ap (λ ids. contains ids p) nodes
            ∙ contains-sort p (node_ids sums)
            ∙ submesh_weights-enters m weights [] sums e p e_sums weighted
                (ap (λ x. find_key x e) (sym same_elt) ∙ at)),
      )
    where
      parts :
          (m : List (ℕ × ℕ)) (r : Ranks)
          → ◌≡◌ {A = Option Layout} (some (record { elt2partition = m; ranks = r })) (some l)
          → (l.elt2partition ≡ m) × (l.ranks ≡ r)
      parts m r q = (cc, cc)

  -- If every part that METIS returns is below the number of parts it was asked for, and there are
  -- partitions, nodes and ranks, then two elements with a weight that are in different partitions
  -- are never put in the same submesh.
  pub layout_of-apart :
      (metis : Metis D) (elements : Elements) (weights : List (ℕ × List D)) (np nn rpl : ℕ)
      (rb : Bool) (l : Layout) (a b p q : ℕ)
      → IsInRange metis
      → 0 < np
      → 0 < nn
      → 0 < rpl
      → layout_of metis elements weights np nn rpl rb ≡ some l
      → find_key weights a ≢ none
      → find_key weights b ≢ none
      → find_key l.elt2partition a ≡ some p
      → find_key l.elt2partition b ≡ some q
      → p ≢ q
      → ¬ (locate l a ≡ locate l b)
  unfolding locate
  layout_of-apart metis elements weights np nn rpl rb l a b p q range pos pos' pos'' h wa wb at at'
        other e =
      let (ps, ranks, fresh, entered) =
        layout_of_inv metis elements weights np nn rpl rb l range pos pos' h in
      let here : locate l a ≡ some (slot_of l.ranks p) = rw (at, locate) in
      let there : locate l b ≡ some (slot_of l.ranks q) = rw (at', locate) in
      let joint : some (slot_of l.ranks p) ≡ some (slot_of l.ranks q) = sym here ∙ e ∙ there in
      let slots : slot_of l.ranks p ≡ slot_of l.ranks q = cc in
      slot_of-apart np nn rpl ps pos'' fresh p q (entered a p wa at) (entered b q wb at') other
        (ap (λ r. slot_of r p) (sym ranks) ∙ slots ∙ ap (λ r. slot_of r q) ranks)
