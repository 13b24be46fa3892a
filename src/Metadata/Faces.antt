-- ===== src/Metadata/Faces.antt =====
-- What `set_face` does to the neighbours of the faces (source/preprocessor/mesh_metadata.cpp).
use dgswemv.Prelude.{
  ℕ, ◌≡◌, ◌≢◌, ◌⊎◌, inl, inr, ap, ◌∙◌, sym, subst, ◌==◌, Option, none, some, List, set, get_elem?,
  get_elem?-set-some, get_elem?-set_ne, arith, Bool-cases, Option-cases,
}
use dgswemv.Adcirc.Boundary.{find_key}
use dgswemv.Metadata.{Face, ElementMetaData, put_key, set_face}
use dgswemv.Metadata.Dictionary.{find_key-put_key_self, find_key-put_key_ne}

abbrev pub face_of : Option ElementMetaData → ℕ → Option ℕ
face_of none k = none
face_of (some e) k = get_elem? e.neighbor_ids k

-- `elements.at(f.element).neighbor_ID[f.face]`
abbrev pub neighbor_at : List (ℕ × ElementMetaData) → Face → Option ℕ
neighbor_at elements f = face_of (find_key elements f.element) f.face

abbrev pub Apart : Face → Face → Type 0
Apart f g = (f.element ≢ g.element) ⊎ (f.face ≢ g.face)

abbrev written : ElementMetaData → ℕ → ℕ → ℕ → ElementMetaData
written e k neighbor kind = record e {
  neighbor_ids = set e.neighbor_ids k neighbor;
  boundary_types = set e.boundary_types k kind;
}

pub set_face_inv :
    (ms ms' : List (ℕ × ElementMetaData)) (f : Face) (neighbor kind : ℕ)
    → set_face ms f neighbor kind ≡ some ms'
    → (e : ElementMetaData) × (find_key ms f.element ≡ some e)
      × (put_key ms f.element (written e f.face neighbor kind) ≡ ms')
unfolding set_face
set_face_inv ms ms' f neighbor kind h = elim (Option-cases (find_key ms f.element)) [
  | inl e ↦ absurd (let bad : none ≡ some ms' = rw (e, set_face) at h in cc)
  | inr (e, there) ↦
      let done : some (put_key ms f.element (written e f.face neighbor kind)) ≡ some ms' =
        rw (there, set_face) at h in
      (
        e,
        there,
        let same : put_key ms f.element (written e f.face neighbor kind) ≡ ms' = cc in same,
      )
]

pub set_face_self :
    (ms ms' : List (ℕ × ElementMetaData)) (f : Face) (neighbor kind : ℕ)
    → set_face ms f neighbor kind ≡ some ms'
    → neighbor_at ms f ≢ none
    → neighbor_at ms' f ≡ some neighbor
set_face_self ms ms' f neighbor kind h has =
    let (e, there, same) = set_face_inv ms ms' f neighbor kind h in
    let found : find_key ms' f.element ≡ some (written e f.face neighbor kind) =
      subst (λ x. find_key x f.element ≡ some (written e f.face neighbor kind)) same
        (find_key-put_key_self ms f.element _ (λ q. cc)) in
    let had : get_elem? e.neighbor_ids f.face ≢ none =
      λ q. has (ap (λ o. face_of o f.face) there ∙ q) in
    ap (λ o. face_of o f.face) found ∙ set_of_some e.neighbor_ids f.face neighbor had
  where
    set_of_some :
        (xs : List ℕ) (k v : ℕ) → get_elem? xs k ≢ none → get_elem? (set xs k v) k ≡ some v
    set_of_some xs k v h = elim (Option-cases (get_elem? xs k)) [
      | inl e ↦ absurd (h e)
      | inr (a, e) ↦ get_elem?-set-some xs k v a e
    ]

set_face_elsewhere :
    (ms ms' : List (ℕ × ElementMetaData)) (f g : Face) (neighbor kind : ℕ)
    → set_face ms f neighbor kind ≡ some ms'
    → f.element ≢ g.element
    → neighbor_at ms' g ≡ neighbor_at ms g
set_face_elsewhere ms ms' f g neighbor kind h apart =
    let (e, there, same) = set_face_inv ms ms' f neighbor kind h in
    ap (λ o. face_of o g.face)
      (ap (λ x. find_key x g.element) (sym same)
        ∙ find_key-put_key_ne ms f.element g.element _ apart)

pub set_face_other :
    (ms ms' : List (ℕ × ElementMetaData)) (f g : Face) (neighbor kind : ℕ)
    → set_face ms f neighbor kind ≡ some ms'
    → Apart f g
    → neighbor_at ms' g ≡ neighbor_at ms g
set_face_other ms ms' f g neighbor kind h (inl apart) =
    set_face_elsewhere ms ms' f g neighbor kind h apart
set_face_other ms ms' f g neighbor kind h (inr apart) = elim (Bool-cases (f.element == g.element)) [
  | inl q ↦
      let (e, there, same) = set_face_inv ms ms' f neighbor kind h in
      let one : f.element ≡ g.element = ground arith in
      let found : find_key ms' f.element ≡ some (written e f.face neighbor kind) =
        subst (λ x. find_key x f.element ≡ some (written e f.face neighbor kind)) same
          (find_key-put_key_self ms f.element _ (λ q. cc)) in
      ap (λ x. face_of (find_key ms' x) g.face) (sym one)
      ∙ ap (λ o. face_of o g.face) found
      ∙ get_elem?-set_ne e.neighbor_ids f.face g.face neighbor apart
      ∙ sym (ap (λ o. face_of o g.face) there)
      ∙ ap (λ x. face_of (find_key ms x) g.face) one
  | inr q ↦ set_face_elsewhere ms ms' f g neighbor kind h (λ r. ground arith)
]

-- `set_face` on `f` keeps every face.
pub set_face_has :
    (ms ms' : List (ℕ × ElementMetaData)) (f g : Face) (neighbor kind : ℕ)
    → set_face ms f neighbor kind ≡ some ms'
    → neighbor_at ms g ≢ none
    → neighbor_at ms' g ≢ none
set_face_has ms ms' f g neighbor kind h has = elim (Bool-cases (f.element == g.element)) [
  | inl p ↦ elim (Bool-cases (f.face == g.face)) [
    | inl q ↦
        let one : g.element ≡ f.element = ground arith in
        let two : g.face ≡ f.face = ground arith in
        let same : (xs : List (ℕ × ElementMetaData)) → neighbor_at xs g ≡ neighbor_at xs f = λ xs.
          ap (λ x. face_of (find_key xs x) g.face) one ∙ ap (face_of (find_key xs f.element)) two in
        let set_to = set_face_self ms ms' f neighbor kind h (λ r. has (same ms ∙ r)) in
        λ r. let bad : some neighbor ≡ none = sym set_to ∙ sym (same ms') ∙ r in cc
    | inr q ↦
        λ r. has (sym (set_face_other ms ms' f g neighbor kind h (inr (λ s. ground arith))) ∙ r)
  ]
  | inr p ↦ λ r. has (sym (set_face_other ms ms' f g neighbor kind h (inl (λ s. ground arith))) ∙ r)
]
