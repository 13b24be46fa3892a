-- ===== src/Metadata.antt =====
-- `MeshMetaData::MeshMetaData(const AdcircFormat&)` (source/preprocessor/mesh_metadata.cpp): the
-- edges of the elements, and the neighbour and the type of every face. `none` is an exception. An
-- unordered map is an association list; its order of iteration is the order of that list.
pub mod Keys
pub mod Dictionary
pub mod Faces
pub mod Linking
pub mod Disjoint
pub mod Known
pub mod Neighbors
use dgswemv.Prelude.{
  ℕ, zero, suc, ◌+◌, ◌*◌, ◌%◌, ◌^◌, ◌==◌, min, max, if◌then◌else◌, Option, none, some, List, [],
  ◌∷◌, foldl, map, replicate, set, for_range,
}
use dgswemv.BoundaryTypes.{internal, is_internal}
use dgswemv.Adcirc.{ElementNodes, Boundaries, AdcircFormat}
use dgswemv.Adcirc.Boundary.{find_key, get_ibtype, get_internal_node_pair}

abbrev pub default_id : ℕ
default_id = 4294967295

-- `min(a, b) << 32 | max(a, b)` on 64 bits, for `a` and `b` of 32 bits.
unfoldable pub edge_key : ℕ → ℕ → ℕ
edge_key a b = min a b * 2 ^ 32 + max a b

-- `eltID_faceID`
pub record Face : Type 0 where
  pub element : ℕ
  pub face : ℕ

pub record EdgeInfo : Type 0 where
  pub first : Face
  pub second : Face

abbrev pub no_face : Face
no_face = record { element = default_id; face = 0 }

abbrev pub node_of : ElementNodes → ℕ → ℕ
node_of e zero = e.n1
node_of e (suc zero) = e.n2
node_of e (suc (suc k)) = e.n3

unfoldable pub face_key : ElementNodes → ℕ → ℕ
face_key e k = edge_key (node_of e ((k + 1) % 3)) (node_of e ((k + 2) % 3))

-- `map.at(key) = value`, for a key that is there.
unfoldable pub put_key {ℓ} : {A : Type ℓ} → List (ℕ × A) → ℕ → A → List (ℕ × A)
put_key [] key v = []
put_key ((k, u) ∷ rest) key v = if k == key then (k, v) ∷ rest else (k, u) ∷ put_key rest key v

unfoldable pub add_face : List (ℕ × EdgeInfo) → ℕ → Face → List (ℕ × EdgeInfo)
add_face dictionary key f = elim (find_key dictionary key) [
  | none ↦ (key, record { first = f; second = no_face }) ∷ dictionary
  | some info ↦ put_key dictionary key (record info { second = f })
]

unfoldable pub add_element : List (ℕ × EdgeInfo) → ℕ × ElementNodes → List (ℕ × EdgeInfo)
add_element dictionary (id, e) =
    for_range 3 0 (λ k d. add_face d (face_key e k) (record { element = id; face = k })) dictionary

-- The loop under "make all edges".
unfoldable pub edge_dictionary : List (ℕ × ElementNodes) → List (ℕ × EdgeInfo)
edge_dictionary elements = foldl add_element [] elements

pub record ElementMetaData : Type 0 where
  pub node_ids : List ℕ
  pub neighbor_ids : List ℕ
  pub boundary_types : List ℕ

-- `ElementMetaData(3)` with its nodes set.
unfoldable pub new_element : ℕ × ElementNodes → ℕ × ElementMetaData
new_element (id, e) = (
  id,
  record {
    node_ids = e.n1 ∷ e.n2 ∷ e.n3 ∷ [];
    neighbor_ids = replicate 3 0;
    boundary_types = replicate 3 0;
  },
)

-- `elements.at(f.element)` gets a neighbour and a type at `f.face`.
unfoldable pub set_face :
    List (ℕ × ElementMetaData) → Face → ℕ → ℕ → Option (List (ℕ × ElementMetaData))
set_face elements f neighbor kind = elim (find_key elements f.element) [
  | none ↦ none
  | some e ↦ some (
      put_key elements f.element (record e {
        neighbor_ids = set e.neighbor_ids f.face neighbor;
        boundary_types = set e.boundary_types f.face kind;
      }))
]

-- An edge with two elements.
unfoldable pub link_pair :
    List (ℕ × ElementMetaData) → Face → Face → Option (List (ℕ × ElementMetaData))
link_pair elements f g = elim (set_face elements f g.element internal) [
  | none ↦ none
  | some elements' ↦ set_face elements' g f.element internal
]

module _ {D : Type 0} (mesh : AdcircFormat D) where
  -- The neighbour across a boundary edge: across a barrier the first element of the opposite edge.
  unfoldable pub neighbor_across : List (ℕ × EdgeInfo) → ℕ → ℕ → ℕ → Option ℕ
  neighbor_across dictionary kind a b =
      if is_internal kind
      then elim (get_internal_node_pair mesh.boundaries a b) [
        | none ↦ none
        | some (p, q) ↦ elim (find_key dictionary (edge_key p q)) [
          | none ↦ none
          | some info ↦ some info.first.element
        ]
      ]
      else some default_id

  -- "treat boundary conditions"
  unfoldable pub link_boundary :
      List (ℕ × EdgeInfo) → List (ℕ × ElementMetaData) → Face → Option (List (ℕ × ElementMetaData))
  link_boundary dictionary elements f = elim (find_key mesh.elements f.element) [
    | none ↦ none
    | some e ↦
        let a = node_of e ((f.face + 1) % 3) in
        let b = node_of e ((f.face + 2) % 3) in
        elim (get_ibtype mesh.boundaries a b) [
          | none ↦ none
          | some kind ↦ elim (neighbor_across dictionary kind a b) [
            | none ↦ none
            | some neighbor ↦ set_face elements f neighbor kind
          ]
        ]
  ]

  unfoldable pub link_edge :
      List (ℕ × EdgeInfo)
      → List (ℕ × ElementMetaData)
      → EdgeInfo
      → Option (List (ℕ × ElementMetaData))
  link_edge dictionary elements info =
      if info.second.element == default_id
      then link_boundary dictionary elements info.first
      else link_pair elements info.first info.second

  -- The loop over the edges of the dictionary.
  unfoldable pub link_edges :
      List (ℕ × EdgeInfo)
      → List (ℕ × EdgeInfo)
      → List (ℕ × ElementMetaData)
      → Option (List (ℕ × ElementMetaData))
  link_edges dictionary [] elements = some elements
  link_edges dictionary ((key, info) ∷ rest) elements = elim (link_edge dictionary elements info) [
    | none ↦ none
    | some elements' ↦ link_edges dictionary rest elements'
  ]

  -- The elements of the constructed `MeshMetaData`.
  unfoldable pub build_elements : Option (List (ℕ × ElementMetaData))
  build_elements =
      let dictionary = edge_dictionary mesh.elements in
      link_edges dictionary dictionary (map new_element mesh.elements)
