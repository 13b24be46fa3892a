-- ===== src/Metadata/Neighbors.antt =====
-- Neighbours after the loop over all edges (source/preprocessor/mesh_metadata.cpp).
use dgswemv.Prelude.{
  ℕ, zero, suc, ◌≡◌, ◌≢◌, ◌⊎◌, inl, inr, ap, ◌∙◌, none, some, List, [], ◌∷◌, map, get_elem?, subst,
  Option-cases,
}
use dgswemv.Adcirc.{AdcircFormat}
use dgswemv.Metadata.{
  Face, EdgeInfo, ElementMetaData, default_id, edge_dictionary, new_element, link_edge, link_edges,
  build_elements,
}
use dgswemv.Metadata.Known.{edge_dictionary-known}
use dgswemv.Metadata.Disjoint.{IsUnique, edge_dictionary-IsDisjoint}
use dgswemv.Metadata.Faces.{neighbor_at, Apart}
use dgswemv.Metadata.Linking.{AllUntouched, IsDisjoint, link_edge_other, link_edge_pair}

abbrev pub Entry : Type 0
Entry = ℕ × EdgeInfo

module _ {D : Type 0} (mesh : AdcircFormat D) (dictionary : List Entry) where
  link_edges_inv :
      (ms ms' : List (ℕ × ElementMetaData)) (key : ℕ) (info : EdgeInfo) (rest : List Entry)
      → link_edges mesh dictionary ((key, info) ∷ rest) ms ≡ some ms'
      → (between : List (ℕ × ElementMetaData)) × (link_edge mesh dictionary ms info ≡ some between)
        × (link_edges mesh dictionary rest between ≡ some ms')
  unfolding link_edges
  link_edges_inv ms ms' key info rest h = elim (Option-cases (link_edge mesh dictionary ms info)) [
    | inl e ↦ absurd (let bad : none ≡ some ms' = rw (e, link_edges) at h in cc)
    | inr (between, e) ↦ (between, e, rw (e, link_edges) at h)
  ]

  link_edges_other :
      (entries : List Entry) (ms ms' : List (ℕ × ElementMetaData)) (g : Face)
      → link_edges mesh dictionary entries ms ≡ some ms'
      → AllUntouched g entries
      → neighbor_at ms' g ≡ neighbor_at ms g
  unfolding link_edges
  link_edges_other [] ms ms' g h apart =
      ap (λ x. neighbor_at x g) (let same : ms' ≡ ms = cc in same)
  link_edges_other ((key, info) ∷ rest) ms ms' g h (now, later) =
      let (between, one, others) = link_edges_inv ms ms' key info rest h in
      link_edges_other rest between ms' g others later
      ∙ (link_edge_other mesh dictionary ms between info g one).0 now

  link_edges_lem :
      (entries : List Entry) (ms ms' : List (ℕ × ElementMetaData)) (i key : ℕ) (info : EdgeInfo)
      → link_edges mesh dictionary entries ms ≡ some ms'
      → IsDisjoint entries
      → get_elem? entries i ≡ some (key, info)
      → info.second.element ≢ default_id
      → neighbor_at ms info.first ≢ none
      → neighbor_at ms info.second ≢ none
      → (neighbor_at ms' info.first ≡ some info.second.element)
        × (neighbor_at ms' info.second ≡ some info.first.element)
  link_edges_lem [] ms ms' i key info h d at paired has has' = cc
  link_edges_lem ((k, x) ∷ rest) ms ms' zero key info h (free, both, d) at paired has has' =
      let same : x ≡ info = cc in
      let (between, one, others) = link_edges_inv ms ms' k x rest h in
      let free_first = subst (λ y. AllUntouched y.first rest) same free in
      let both' =
        subst
          (λ y.
            (y.second.element ≡ default_id) ⊎ (Apart y.first y.second × AllUntouched y.second rest))
          same both in
      let one' = subst (λ y. link_edge mesh dictionary ms y ≡ some between) same one in
      elim both' [
        | inl bad ↦ absurd (paired bad)
        | inr (apart, free_second) ↦
            let (to, from) =
              link_edge_pair mesh dictionary ms between info one' paired apart has has' in
            (
              link_edges_other rest between ms' info.first others free_first ∙ to,
              link_edges_other rest between ms' info.second others free_second ∙ from,
            )
      ]
  link_edges_lem ((k, x) ∷ rest) ms ms' (suc i) key info h (free, both, d) at paired has has' =
      let (between, one, others) = link_edges_inv ms ms' k x rest h in
      link_edges_lem rest between ms' i key info others d at paired
        ((link_edge_other mesh dictionary ms between x info.first one).1 has)
        ((link_edge_other mesh dictionary ms between x info.second one).1 has')

-- If no element number is given twice and the mesh is built without exception, then the two
-- elements of every edge with two elements are each other's neighbour at their faces on it.
pub build_elements-neighbors :
    {D : Type 0} (mesh : AdcircFormat D) (ms : List (ℕ × ElementMetaData)) (i key : ℕ)
    (info : EdgeInfo)
    → IsUnique mesh.elements
    → build_elements mesh ≡ some ms
    → get_elem? (edge_dictionary mesh.elements) i ≡ some (key, info)
    → info.second.element ≢ default_id
    → (neighbor_at ms info.first ≡ some info.second.element)
      × (neighbor_at ms info.second ≡ some info.first.element)
unfolding build_elements
build_elements-neighbors mesh ms i key info unique h at paired =
    let dictionary = edge_dictionary mesh.elements in
    let (first, second) = edge_dictionary-known mesh.elements i key info at in
    elim second [
      | inl missing ↦ absurd (paired missing)
      | inr second' ↦
          link_edges_lem mesh dictionary dictionary (map new_element mesh.elements) ms i key info h
            (edge_dictionary-IsDisjoint mesh.elements unique) at paired first second'
    ]
