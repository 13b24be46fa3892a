-- ===== src/Metadata/Linking.antt =====
-- The neighbours that the loop over the edges sets (source/preprocessor/mesh_metadata.cpp).
use dgswemv.Prelude.{
  ℕ, ◌+◌, ◌%◌, ◌≡◌, ◌≢◌, ◌⊎◌, inl, inr, ◌∙◌, sym, ◌==◌, none, some, List, [], ◌∷◌, arith,
  Bool-cases, Option-cases,
}
use dgswemv.BoundaryTypes.{internal}
use dgswemv.Adcirc.{AdcircFormat}
use dgswemv.Adcirc.Boundary.{find_key, get_ibtype}
use dgswemv.Metadata.{
  Face, EdgeInfo, ElementMetaData, default_id, set_face, link_pair, node_of, neighbor_across,
  link_boundary, link_edge,
}
use dgswemv.Metadata.Faces.{neighbor_at, Apart, set_face_self, set_face_other, set_face_has}

-- The face is not one that the edge sets.
abbrev pub Untouched : Face → EdgeInfo → Type 0
Untouched g info = Apart info.first g × ((info.second.element ≡ default_id) ⊎ Apart info.second g)

abbrev pub AllUntouched : Face → List (ℕ × EdgeInfo) → Type 0
AllUntouched g [] = Unit
AllUntouched g ((key, info) ∷ rest) = Untouched g info × AllUntouched g rest

-- No face stands in two places of the list of edges.
abbrev pub IsDisjoint : List (ℕ × EdgeInfo) → Type 0
IsDisjoint [] = Unit
IsDisjoint ((key, info) ∷ rest) =
    AllUntouched info.first rest
    × ((info.second.element ≡ default_id)
        ⊎ (Apart info.first info.second × AllUntouched info.second rest))
    × IsDisjoint rest

link_pair_inv :
    (ms ms' : List (ℕ × ElementMetaData)) (f g : Face)
    → link_pair ms f g ≡ some ms'
    → (between : List (ℕ × ElementMetaData)) × (set_face ms f g.element internal ≡ some between)
      × (set_face between g f.element internal ≡ some ms')
unfolding link_pair
link_pair_inv ms ms' f g h = elim (Option-cases (set_face ms f g.element internal)) [
  | inl e ↦ absurd (let bad : none ≡ some ms' = rw (e, link_pair) at h in cc)
  | inr (between, e) ↦ (between, e, rw (e, link_pair) at h)
]

module _ {D : Type 0} (mesh : AdcircFormat D) (dictionary : List (ℕ × EdgeInfo)) where
  link_boundary_inv :
      (ms ms' : List (ℕ × ElementMetaData)) (f : Face)
      → link_boundary mesh dictionary ms f ≡ some ms'
      → (neighbor kind : ℕ) × (set_face ms f neighbor kind ≡ some ms')
  unfolding link_boundary
  link_boundary_inv ms ms' f h = elim (Option-cases (find_key mesh.elements f.element)) [
    | inl e ↦ absurd (let bad : none ≡ some ms' = rw (e, link_boundary) at h in cc)
    | inr (x, e) ↦
        let a = node_of x ((f.face + 1) % 3) in
        let b = node_of x ((f.face + 2) % 3) in
        let h1 = rw (e, link_boundary) at h in
        elim (Option-cases (get_ibtype mesh.boundaries a b)) [
          | inl e1 ↦ absurd (let bad : none ≡ some ms' = rw e1 at h1 in cc)
          | inr (kind, e1) ↦
              let h2 = rw e1 at h1 in
              elim (Option-cases (neighbor_across mesh dictionary kind a b)) [
                | inl e2 ↦ absurd (let bad : none ≡ some ms' = rw e2 at h2 in cc)
                | inr (neighbor, e2) ↦ (neighbor, kind, rw e2 at h2)
              ]
        ]
  ]

  -- An edge leaves the other faces as they are, and takes no face away.
  pub link_edge_other :
      (ms ms' : List (ℕ × ElementMetaData)) (info : EdgeInfo) (g : Face)
      → link_edge mesh dictionary ms info ≡ some ms'
      → (Untouched g info → neighbor_at ms' g ≡ neighbor_at ms g)
        × (neighbor_at ms g ≢ none → neighbor_at ms' g ≢ none)
  unfolding link_edge
  link_edge_other ms ms' info g h = elim (Bool-cases (info.second.element == default_id)) [
    | inl e ↦
        let (neighbor, kind, done) = link_boundary_inv ms ms' info.first (rw (e, link_edge) at h) in
        (
          λ apart. set_face_other ms ms' info.first g neighbor kind done apart.0,
          set_face_has ms ms' info.first g neighbor kind done,
        )
    | inr e ↦
        let (between, one, two) =
          link_pair_inv ms ms' info.first info.second (rw (e, link_edge) at h) in
        (
          λ apart.
              let second : Apart info.second g = elim (apart.1) [
                | inl bad ↦ absurd (ground arith)
                | inr good ↦ good
              ] in
              set_face_other between ms' info.second g _ internal two second
              ∙ set_face_other ms between info.first g _ internal one apart.0,
          λ has.
              set_face_has between ms' info.second g _ internal two
                (set_face_has ms between info.first g _ internal one has),
        )
  ]

  pub link_edge_pair :
      (ms ms' : List (ℕ × ElementMetaData)) (info : EdgeInfo)
      → link_edge mesh dictionary ms info ≡ some ms'
      → info.second.element ≢ default_id
      → Apart info.first info.second
      → neighbor_at ms info.first ≢ none
      → neighbor_at ms info.second ≢ none
      → (neighbor_at ms' info.first ≡ some info.second.element)
        × (neighbor_at ms' info.second ≡ some info.first.element)
  unfolding link_edge
  link_edge_pair ms ms' info h paired apart has has' =
      elim (Bool-cases (info.second.element == default_id)) [
        | inl e ↦ absurd (paired (ground arith))
        | inr e ↦
            let (between, one, two) =
              link_pair_inv ms ms' info.first info.second (rw (e, link_edge) at h) in
            (
              set_face_other between ms' info.second info.first _ internal two (swap apart)
                  ∙ set_face_self ms between info.first _ internal one has,
              set_face_self between ms' info.second _ internal two
                  (set_face_has ms between info.first info.second _ internal one has'),
            )
      ]
    where
      swap : {f g : Face} → Apart f g → Apart g f
      swap (inl h) = inl (λ e. h (sym e))
      swap (inr h) = inr (λ e. h (sym e))
