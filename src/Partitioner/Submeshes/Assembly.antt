-- ===== src/Partitioner/Submeshes/Assembly.antt =====
-- What the assembly of the submeshes puts where (partitioner/partition.cpp, "assemble submeshes").
use dgswemv.Prelude.{
  ℕ, zero, suc, ◌≡◌, inl, inr, refl, ap, ◌∙◌, sym, ◌==◌, if◌then◌else◌, Option, none, some, List,
  [], ◌∷◌, get_elem?, replicate, map, arith, bind, bind-eq-some, Bool, true, false, Bool-cases,
  Option-cases,
}
use dgswemv.Adcirc.{Coordinates}
use dgswemv.Adcirc.Boundary.{find_key}
use dgswemv.Metadata.{ElementMetaData}
use dgswemv.Partitioner.Weights.{Elements}
use dgswemv.Partitioner.Layout.{Layout, Slot, locate}
use dgswemv.Partitioner.Submeshes.{
  Submesh, Submeshes, modify_mesh, empty_submeshes, add_nodes, insert_element, assemble,
}
use dgswemv.Partitioner.Submeshes.Lookup.{
  mesh_at, slot_cases, element_in, view, modify_mesh_self, modify_mesh_other,
}

abbrev or_else {ℓ} : {A : Type ℓ} → Option A → Option A → Option A
or_else none other = other
or_else (some a) other = some a

module _ {D : Type 0} (l : Layout) (all : List (ℕ × Coordinates D)) where
  entered :
      (id e : ℕ) (x : ElementMetaData) (old : Elements) (o : Option ElementMetaData)
      → find_key old id ≡ o
      → find_key (elim o [ none ↦ (id, x) ∷ old | some _ ↦ old ]) e
        ≡ (if id == e then or_else (find_key old e) (some x) else find_key old e)
  unfolding find_key
  entered id e x old none h = elim (Bool-cases (id == e)) [
    | inl q ↦
        let same : e ≡ id = ground arith in
        let absent : find_key old e ≡ none = ap (find_key old) same ∙ h in rw (q, absent)
    | inr q ↦ rw q
  ]
  entered id e x old (some y) h = elim (Bool-cases (id == e)) [
    | inl q ↦
        let same : e ≡ id = ground arith in
        let present : find_key old e ≡ some y = ap (find_key old) same ∙ h in rw (q, present)
    | inr q ↦ rw q
  ]

  add_element_inv :
      (id e : ℕ) (x : ElementMetaData) (m m' : Submesh D)
      → insert_element all id x m ≡ some m'
      → find_key m'.elements e
        ≡ (if id == e then or_else (find_key m.elements e) (some x) else find_key m.elements e)
  unfolding insert_element
  add_element_inv id e x m m' h =
      let (nodes, _, built) = bind-eq-some (add_nodes all x.node_ids m.nodes) _ h in
      let same : m'.elements
          ≡ elim (find_key m.elements id) [ none ↦ (id, x) ∷ m.elements | some _ ↦ m.elements ] =
        sym (elements_eq built) in
      ap (λ es. find_key es e) same ∙ entered id e x m.elements (find_key m.elements id) refl
    where
      elements_eq : {u v : Submesh D} → some u ≡ some v → u.elements ≡ v.elements
      elements_eq q = cc

  module _ (ms ms' : Submeshes D) (s : Slot) (id : ℕ) (x : ElementMetaData) where
    element_in-add_self :
        modify_mesh ms s (insert_element all id x) ≡ some ms'
        → element_in ms' s id ≡ or_else (element_in ms s id) (some x)
    element_in-add_self h =
        let (m, m', before, added, after) = modify_mesh_self ms ms' s (insert_element all id x) h in
        let self : (id == id) ≡ true = ground arith in
        ap (λ o. bind o (λ y. find_key y.elements id)) after
        ∙ add_element_inv id id x m m' added
        ∙ ap (λ b. if b then or_else (find_key m.elements id) (some x) else find_key m.elements id)
            self
        ∙ sym (ap (λ o. or_else (bind o (λ y. find_key y.elements id)) (some x)) before)

    element_in-add_other :
        (t : Slot) (e : ℕ)
        → modify_mesh ms s (insert_element all id x) ≡ some ms'
        → (id == e) ≡ false
        → element_in ms' t e ≡ element_in ms t e
    element_in-add_other t e h n = elim (slot_cases s t) [
      | inr apart ↦
          ap (λ o. bind o (λ m. find_key m.elements e))
            (modify_mesh_other ms ms' s (insert_element all id x) t h apart)
      | inl same ↦
          let (m, m', before, added, after) =
            modify_mesh_self ms ms' s (insert_element all id x) h in
          ap (λ u. element_in ms' u e) (sym same)
          ∙ ap (λ o. bind o (λ y. find_key y.elements e)) after
          ∙ add_element_inv id e x m m' added
          ∙ ap (λ b. if b then or_else (find_key m.elements e) (some x) else find_key m.elements e)
              n
          ∙ sym (ap (λ o. bind o (λ y. find_key y.elements e)) before)
          ∙ ap (λ u. element_in ms u e) same
    ]

    view-add :
        (e : ℕ)
        → locate l id ≡ some s
        → modify_mesh ms s (insert_element all id x) ≡ some ms'
        → view l ms' e ≡ (if id == e then or_else (view l ms e) (some x) else view l ms e)
    unfolding view
    view-add e at h = elim (Bool-cases (id == e)) [
      | inl q ↦ let same : e ≡ id = ground arith in rw (q, same, at) (element_in-add_self h)
      | inr q ↦ rw q (elim (Option-cases (locate l e)) [
        | inl none_there ↦ rw none_there
        | inr (t, there) ↦ rw there (element_in-add_other t e h q)
      ])
    ]

  -- The loop over the elements: the first entry of a number that is not there yet is kept.
  assemble-view :
      (elements : Elements) (ms ms' : Submeshes D) (e : ℕ)
      → assemble l all elements ms ≡ some ms'
      → view l ms' e ≡ or_else (view l ms e) (find_key elements e)
  unfolding assemble find_key
  assemble-view [] ms ms' e h =
      let same : ms' ≡ ms = cc in ap (λ y. view l y e) same ∙ right (view l ms e)
    where
      right : {A : Type 0} → (o : Option A) → o ≡ or_else o none
      right none = refl
      right (some a) = refl
  assemble-view ((id, x) ∷ rest) ms ms' e h =
      let (s, at, h1) = bind-eq-some (locate l id) _ h in
      let (ms1, one, two) = bind-eq-some (modify_mesh ms s (insert_element all id x)) _ h1 in
      assemble-view rest ms1 ms' e two
      ∙ ap (λ o. or_else o (find_key rest e)) (view-add ms ms1 s id x e at one)
      ∙ join (id == e) (view l ms e) (find_key rest e)
    where
      join :
          (b : Bool) (v r : Option ElementMetaData)
          → or_else (if b then or_else v (some x) else v) r ≡ or_else v (if b then some x else r)
      join true none r = refl
      join true (some a) r = refl
      join false v r = refl

  -- Before the assembly there is no element.
  view-empty_submeshes :
      (counts : List ℕ) (e : ℕ) → view l (empty_submeshes {D = D} counts) e ≡ none
  unfolding view empty_submeshes mesh_at find_key
  view-empty_submeshes counts e = elim (Option-cases (locate l e)) [
    | inl none_there ↦ rw none_there
    | inr (s, there) ↦ rw there (rows counts s.rank s.place)
  ]
    where
      blank : Submesh D
      blank = record { elements = []; nodes = [] }

      row :
          (n place : ℕ)
          → bind (get_elem? (replicate n blank) place) (λ m. find_key m.elements e) ≡ none
      row zero place = refl
      row (suc n) zero = refl
      row (suc n) (suc place) = row n place

      rows :
          (counts : List ℕ) (rank place : ℕ)
          → bind
              (bind (get_elem? (map (λ n. replicate n blank) counts) rank) (λ r. get_elem? r place))
              (λ m. find_key m.elements e)
            ≡ none
      rows [] rank place = refl
      rows (n ∷ counts) zero place = row n place
      rows (n ∷ counts) (suc rank) place = rows counts rank place

  -- After the assembly, every element of the mesh stands, as it is in the mesh, in the submesh
  -- where the layout puts it; where a number has several entries the first one counts.
  pub assemble-view_empty :
      (elements : Elements) (counts : List ℕ) (ms' : Submeshes D) (e : ℕ)
      → assemble l all elements (empty_submeshes counts) ≡ some ms'
      → view l ms' e ≡ find_key elements e
  assemble-view_empty elements counts ms' e h =
      assemble-view elements (empty_submeshes counts) ms' e h
      ∙ ap (λ o. or_else o (find_key elements e)) (view-empty_submeshes counts e)
