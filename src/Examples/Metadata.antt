-- ===== src/Examples/Metadata.antt =====
-- The metadata of a mesh of two triangles with a common edge.
use dgswemv.Prelude.{
  ℕ, ◌+◌, ◌*◌, ◌^◌, ◌≡◌, ◌⊎◌, ◌↔◌, refl, some, List, [], ◌∷◌, arith, get_elem?, for_range,
}
use dgswemv.BoundaryTypes.{is_internal}
use dgswemv.Adcirc.{AdcircFormat}
use dgswemv.Adcirc.Boundary.{
  has_edge_from, has_edge, some_has_edge, find_key, segment_verdict, segments_verdict, get_ibtype,
}
use dgswemv.Metadata.{
  EdgeInfo, ElementMetaData, default_id, edge_key, face_key, put_key, add_face, add_element,
  edge_dictionary, new_element, set_face, link_pair, neighbor_across, link_boundary, link_edge,
  link_edges, build_elements,
}
use dgswemv.Metadata.Keys.{edge_key_iff}
use dgswemv.Metadata.Dictionary.{faces, with_key, edge_of, edge_dictionary_lem}
use dgswemv.Metadata.Faces.{neighbor_at}
use dgswemv.Metadata.Linking.{IsDisjoint}
use dgswemv.Metadata.Disjoint.{IsUnique, edge_dictionary-IsDisjoint}
use dgswemv.Metadata.Neighbors.{build_elements-neighbors}

abbrev two_triangles : AdcircFormat ℕ
two_triangles = record {
  name = "two triangles";
  nodes = [];
  elements =
      (1, record { kind = 3; n1 = 1; n2 = 2; n3 = 3 })
      ∷ (2, record { kind = 3; n1 = 2; n2 = 4; n3 = 3 })
      ∷ [];
  boundaries = record {
    nope = 0;
    neta = 0;
    nbdv = [];
    nbou = 1;
    nvel = 5;
    ibtype = 0 ∷ [];
    nbvv = (1 ∷ 2 ∷ 4 ∷ 3 ∷ 1 ∷ []) ∷ [];
    ibconn = [];
    barinth = [];
    barincfsb = [];
    barincfsp = [];
    ngen = 0;
    nngn = 0;
    nbgn = [];
  };
}

abbrev linked : List (ℕ × ElementMetaData)
linked =
    (
      1,
      record {
        node_ids = 1 ∷ 2 ∷ 3 ∷ [];
        neighbor_ids = 2 ∷ default_id ∷ default_id ∷ [];
        boundary_types = 128 ∷ 0 ∷ 0 ∷ [];
      },
    )
    ∷ (
      2,
      record {
        node_ids = 2 ∷ 4 ∷ 3 ∷ [];
        neighbor_ids = default_id ∷ 1 ∷ default_id ∷ [];
        boundary_types = 0 ∷ 128 ∷ 0 ∷ [];
      },
    )
    ∷ []

build_two_triangles : build_elements two_triangles ≡ some linked
unfolding build_elements link_edges link_edge link_boundary neighbor_across link_pair set_face
    new_element edge_dictionary add_element add_face put_key face_key edge_key find_key get_ibtype
    segments_verdict segment_verdict some_has_edge has_edge has_edge_from is_internal for_range
build_two_triangles = refl

abbrev common : EdgeInfo
common = record {
  first = record { element = 1; face = 0 };
  second = record { element = 2; face = 1 };
}

common_key : get_elem? (edge_dictionary two_triangles.elements) 4 ≡ some (2 * 2 ^ 32 + 3, common)
unfolding edge_dictionary add_element add_face put_key face_key edge_key find_key for_range
common_key = refl

unique : IsUnique two_triangles.elements
unfolding find_key
unique = (refl, (refl, tt))

build_elements-neighbors_example :
    (neighbor_at linked common.first ≡ some 2) × (neighbor_at linked common.second ≡ some 1)
build_elements-neighbors_example =
    build_elements-neighbors two_triangles linked 4 (2 * 2 ^ 32 + 3) common unique
      build_two_triangles common_key (omega arith)

edge_dictionary-IsDisjoint_example : IsDisjoint (edge_dictionary two_triangles.elements)
edge_dictionary-IsDisjoint_example = edge_dictionary-IsDisjoint two_triangles.elements unique

edge_dictionary_lem_example :
    find_key (edge_dictionary two_triangles.elements) (2 * 2 ^ 32 + 3)
    ≡ edge_of (with_key (2 * 2 ^ 32 + 3) (faces two_triangles.elements))
edge_dictionary_lem_example = edge_dictionary_lem two_triangles.elements (2 * 2 ^ 32 + 3)

abbrev two : ℕ
two = 2

abbrev three : ℕ
three = 3

edge_key_iff_example :
    (edge_key two three ≡ edge_key three two)
    ↔ ((two ≡ three) × (three ≡ two) ⊎ (two ≡ two) × (three ≡ three))
edge_key_iff_example =
    edge_key_iff two three three two (omega arith) (omega arith) (omega arith) (omega arith)
