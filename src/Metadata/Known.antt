-- ===== src/Metadata/Known.antt =====
-- Every face in the edge dictionary is a face of an element
-- (source/preprocessor/mesh_metadata.cpp).
use dgswemv.Prelude.{
  ℕ, zero, suc, ◌<◌, ◌≡◌, ◌≢◌, ◌⊎◌, inl, inr, refl, sym, subst, true, none, some, List, [], ◌∷◌,
  map, get_elem?, ◌==◌, arith, Option-cases, Bool-cases,
}
use dgswemv.Adcirc.{ElementNodes}
use dgswemv.Adcirc.Boundary.{find_key}
use dgswemv.Metadata.{Face, EdgeInfo, default_id, put_key, add_face, edge_dictionary, new_element}
use dgswemv.Metadata.Dictionary.{faces, add_faces, foldl-add_element}
use dgswemv.Metadata.Faces.{neighbor_at}

module _ (P : Face → Type 0) where
  abbrev IsKnown : EdgeInfo → Type 0
  IsKnown info = P info.first × ((info.second.element ≡ default_id) ⊎ P info.second)

  abbrev AllKnown : List (ℕ × EdgeInfo) → Type 0
  AllKnown [] = Unit
  AllKnown ((key, info) ∷ rest) = IsKnown info × AllKnown rest

  abbrev AllFaces : List (ℕ × Face) → Type 0
  AllFaces [] = Unit
  AllFaces ((key, f) ∷ rest) = P f × AllFaces rest

  find_key-IsKnown :
      (d : List (ℕ × EdgeInfo)) (key : ℕ) (info : EdgeInfo)
      → find_key d key ≡ some info
      → AllKnown d
      → IsKnown info
  unfolding find_key
  find_key-IsKnown [] key info h all = absurd (let bad : none ≡ some info = h in cc)
  find_key-IsKnown ((k, u) ∷ rest) key info h (now, later) = elim (Bool-cases (k == key)) [
    | inl e ↦
        let found : some u ≡ some info = rw (e, find_key) at h in
        let same : u ≡ info = cc in subst IsKnown same now
    | inr e ↦ find_key-IsKnown rest key info (rw (e, find_key) at h) later
  ]

  put_key-AllKnown :
      (d : List (ℕ × EdgeInfo)) (key : ℕ) (info : EdgeInfo)
      → IsKnown info
      → AllKnown d
      → AllKnown (put_key d key info)
  unfolding put_key
  put_key-AllKnown [] key info h all = tt
  put_key-AllKnown ((k, u) ∷ rest) key info h (now, later) = elim (Bool-cases (k == key)) [
    | inl e ↦ rw e (h, later)
    | inr e ↦ rw e (now, put_key-AllKnown rest key info h later)
  ]

  add_face-AllKnown :
      (d : List (ℕ × EdgeInfo)) (key : ℕ) (f : Face)
      → P f
      → AllKnown d
      → AllKnown (add_face d key f)
  unfolding add_face
  add_face-AllKnown d key f p all = elim (Option-cases (find_key d key)) [
    | inl e ↦ rw (e, add_face) ((p, inl refl), all)
    | inr (info, e) ↦
        rw (e, add_face)
          (put_key-AllKnown d key (record info { second = f })
            ((find_key-IsKnown d key info e all).0, inr p) all)
  ]

  add_faces-AllKnown :
      (fs : List (ℕ × Face)) (d : List (ℕ × EdgeInfo))
      → AllFaces fs
      → AllKnown d
      → AllKnown (add_faces d fs)
  add_faces-AllKnown [] d ps all = all
  add_faces-AllKnown ((k, f) ∷ fs) d (p, ps) all =
      add_faces-AllKnown fs (add_face d k f) ps (add_face-AllKnown d k f p all)

  get_elem?-IsKnown :
      (d : List (ℕ × EdgeInfo)) (i key : ℕ) (info : EdgeInfo)
      → get_elem? d i ≡ some (key, info)
      → AllKnown d
      → IsKnown info
  get_elem?-IsKnown [] i key info h all = absurd (let bad : none ≡ some (key, info) = h in cc)
  get_elem?-IsKnown ((k, u) ∷ rest) zero key info h (now, later) =
      let same : u ≡ info = cc in subst IsKnown same now
  get_elem?-IsKnown ((k, u) ∷ rest) (suc i) key info h (now, later) =
      get_elem?-IsKnown rest i key info h later

-- The face is one of an element of the mesh.
abbrev IsFaceOf : List (ℕ × ElementNodes) → Face → Type 0
IsFaceOf elements f = (f.face < 3) × (find_key elements f.element ≢ none)

find_key-later :
    (id key : ℕ) (e : ElementNodes) (rest : List (ℕ × ElementNodes))
    → find_key rest key ≢ none
    → find_key ((id, e) ∷ rest) key ≢ none
unfolding find_key
find_key-later id key e rest h q = elim (Bool-cases (id == key)) [
  | inl p ↦ absurd (let bad : some e ≡ none = rw (p, find_key) at q in cc)
  | inr p ↦ h (rw (p, find_key) at q)
]

find_key-first :
    (id : ℕ) (e : ElementNodes) (rest : List (ℕ × ElementNodes))
    → find_key ((id, e) ∷ rest) id ≢ none
unfolding find_key
find_key-first id e rest q =
    let here : (id == id) ≡ true = ground arith in
    absurd (let bad : some e ≡ none = rw (here, find_key) at q in cc)

AllFaces-later :
    (x : ℕ × ElementNodes) (rest : List (ℕ × ElementNodes)) (fs : List (ℕ × Face))
    → AllFaces (IsFaceOf rest) fs
    → AllFaces (IsFaceOf (x ∷ rest)) fs
AllFaces-later x rest [] ps = tt
AllFaces-later (id, e) rest ((k, f) ∷ fs) ((low, there), ps) =
    ((low, find_key-later id f.element e rest there), AllFaces-later (id, e) rest fs ps)

faces-IsFaceOf :
    (elements : List (ℕ × ElementNodes)) → AllFaces (IsFaceOf elements) (faces elements)
faces-IsFaceOf [] = tt
faces-IsFaceOf ((id, e) ∷ rest) =
    let first = find_key-first id e rest in
    (
      (omega arith, first),
      (
        (omega arith, first),
        ((omega arith, first), AllFaces-later (id, e) rest (faces rest) (faces-IsFaceOf rest)),
      ),
    )

neighbor_at-IsFaceOf :
    (elements : List (ℕ × ElementNodes)) (f : Face)
    → IsFaceOf elements f
    → neighbor_at (map new_element elements) f ≢ none
unfolding find_key new_element
neighbor_at-IsFaceOf [] f (low, there) q = there refl
neighbor_at-IsFaceOf ((id, e) ∷ rest) f (low, there) q = elim (Bool-cases (id == f.element)) [
  | inl p ↦ three_there f.face low (rw (p, find_key, new_element) at q)
  | inr p ↦
      neighbor_at-IsFaceOf rest f (low, λ r. there (rw (p, find_key) r))
        (rw (p, find_key, new_element) at q)
]
  where
    three_there : (k : ℕ) → k < 3 → get_elem? {A = ℕ} (0 ∷ 0 ∷ 0 ∷ []) k ≢ none
    three_there zero lt r = cc
    three_there (suc zero) lt r = cc
    three_there (suc (suc zero)) lt r = cc
    three_there (suc (suc (suc k))) lt r = absurd (omega arith)

-- The faces of an edge of the dictionary are there before the edges are linked.
pub edge_dictionary-known :
    (elements : List (ℕ × ElementNodes)) (i key : ℕ) (info : EdgeInfo)
    → get_elem? (edge_dictionary elements) i ≡ some (key, info)
    → (neighbor_at (map new_element elements) info.first ≢ none)
      × ((info.second.element ≡ default_id)
          ⊎ (neighbor_at (map new_element elements) info.second ≢ none))
unfolding edge_dictionary
edge_dictionary-known elements i key info h =
    let all =
      subst (AllKnown (IsFaceOf elements)) (sym (foldl-add_element elements []))
        (add_faces-AllKnown (IsFaceOf elements) (faces elements) [] (faces-IsFaceOf elements) tt) in
    let (first, second) =
      get_elem?-IsKnown (IsFaceOf elements) (edge_dictionary elements) i key info h all in
    (
      neighbor_at-IsFaceOf elements info.first first,
      elim second [
        | inl none_there ↦ inl none_there
        | inr there ↦ inr (neighbor_at-IsFaceOf elements info.second there)
      ],
    )
