-- ===== src/Metadata/Dictionary.antt =====
-- What the edge dictionary holds (source/preprocessor/mesh_metadata.cpp).
use dgswemv.Prelude.{
  ℕ, ◌≡◌, ◌≢◌, refl, ap, ◌∙◌, sym, Bool, false, ◌==◌, if◌then◌else◌, Option, none, some, List, [],
  ◌∷◌, ◌++◌, foldl, for_range, arith, inl, inr, Bool-cases, Option-cases, subst,
}
use dgswemv.Adcirc.{ElementNodes}
use dgswemv.Adcirc.Boundary.{find_key}
use dgswemv.Metadata.{
  Face, EdgeInfo, no_face, face_key, put_key, add_face, add_element, edge_dictionary,
}

-- The faces of the elements with their keys, in the order in which they are met.
abbrev pub faces_of : ℕ → ElementNodes → List (ℕ × Face)
faces_of id e =
    (face_key e 0, record { element = id; face = 0 })
    ∷ (face_key e 1, record { element = id; face = 1 })
    ∷ (face_key e 2, record { element = id; face = 2 })
    ∷ []

abbrev pub faces : List (ℕ × ElementNodes) → List (ℕ × Face)
faces [] = []
faces ((id, e) ∷ rest) = faces_of id e ++ faces rest

abbrev pub with_key : ℕ → List (ℕ × Face) → List Face
with_key key [] = []
with_key key ((k, f) ∷ rest) = if k == key then f ∷ with_key key rest else with_key key rest

abbrev pub last_or : Face → List Face → Face
last_or f [] = f
last_or f (g ∷ gs) = last_or g gs

-- The first face of an edge, and the last of the others.
abbrev pub edge_of : List Face → Option EdgeInfo
edge_of [] = none
edge_of (f ∷ fs) = some (record { first = f; second = last_or no_face fs })

abbrev extend : Option EdgeInfo → Face → EdgeInfo
extend none f = record { first = f; second = no_face }
extend (some info) f = record { first = info.first; second = f }

abbrev summary : Option EdgeInfo → List Face → Option EdgeInfo
summary o [] = o
summary o (f ∷ fs) = summary (some (extend o f)) fs

pub find_key-put_key_self {ℓ} :
    {A : Type ℓ} (d : List (ℕ × A)) (key : ℕ) (v : A)
    → find_key d key ≢ none
    → find_key (put_key d key v) key ≡ some v
unfolding find_key put_key
find_key-put_key_self [] key v h = absurd (h refl)
find_key-put_key_self ((k, u) ∷ rest) key v h = elim (Bool-cases (k == key)) [
  | inl e ↦ rw (e, e)
  | inr e ↦ rw (e, e) (find_key-put_key_self rest key v (rw e at h))
]

pub find_key-put_key_ne {ℓ} :
    {A : Type ℓ} (d : List (ℕ × A)) (key other : ℕ) (v : A)
    → key ≢ other
    → find_key (put_key d key v) other ≡ find_key d other
unfolding find_key put_key
find_key-put_key_ne [] key other v h = refl
find_key-put_key_ne ((k, u) ∷ rest) key other v h = elim (Bool-cases (k == key)) [
  | inl e ↦ rw e (let apart : (k == other) ≡ false = ground arith in rw apart)
  | inr e ↦
      rw e (ap (λ x. if k == other then some u else x) (find_key-put_key_ne rest key other v h))
]

abbrev updated : Option EdgeInfo → Bool → Face → Option EdgeInfo
updated o here f = if here then some (extend o f) else o

find_key-new :
    (d : List (ℕ × EdgeInfo)) (k key : ℕ) (f : Face)
    → find_key d k ≡ none
    → find_key ((k, record { first = f; second = no_face }) ∷ d) key
      ≡ updated (find_key d key) (k == key) f
unfolding find_key
find_key-new d k key f e = elim (Bool-cases (k == key)) [
  | inl h ↦
      let same : k ≡ key = ground arith in
      rw h (let missing : find_key d key ≡ none = ap (find_key d) (sym same) ∙ e in rw missing)
  | inr h ↦ rw h
]

find_key-old :
    (d : List (ℕ × EdgeInfo)) (k key : ℕ) (f : Face) (info : EdgeInfo)
    → find_key d k ≡ some info
    → find_key (put_key d k (record info { second = f })) key
      ≡ updated (find_key d key) (k == key) f
find_key-old d k key f info e = elim (Bool-cases (k == key)) [
  | inl h ↦
      let same : k ≡ key = ground arith in
      let there : find_key d key ≡ some info = ap (find_key d) (sym same) ∙ e in
      rw (h, there)
        (subst
          (λ x.
            find_key (put_key d k (record info { second = f })) x
            ≡ some (record info { second = f }))
          same (find_key-put_key_self d k _ (λ q. cc)))
  | inr h ↦ rw h (find_key-put_key_ne d k key _ (λ q. ground arith))
]

find_key-add_face :
    (d : List (ℕ × EdgeInfo)) (k key : ℕ) (f : Face)
    → find_key (add_face d k f) key ≡ updated (find_key d key) (k == key) f
unfolding add_face
find_key-add_face d k key f = elim (Option-cases (find_key d k)) [
  | inl e ↦ rw (e, add_face) (find_key-new d k key f e)
  | inr (info, e) ↦ rw (e, add_face) (find_key-old d k key f info e)
]

summary-some :
    (info : EdgeInfo) (fs : List Face)
    → summary (some info) fs ≡ some (record { first = info.first; second = last_or info.second fs })
summary-some info [] = refl
summary-some info (f ∷ fs) = summary-some (record { first = info.first; second = f }) fs

abbrev pub add_faces : List (ℕ × EdgeInfo) → List (ℕ × Face) → List (ℕ × EdgeInfo)
add_faces d [] = d
add_faces d ((k, f) ∷ rest) = add_faces (add_face d k f) rest

find_key-add_faces :
    (fs : List (ℕ × Face)) (d : List (ℕ × EdgeInfo)) (key : ℕ)
    → find_key (add_faces d fs) key ≡ summary (find_key d key) (with_key key fs)
find_key-add_faces [] d key = refl
find_key-add_faces ((k, f) ∷ rest) d key = elim (Bool-cases (k == key)) [
  | inl e ↦ find_key-add_faces rest (add_face d k f) key ∙ rw (find_key-add_face d k key f, e) refl
  | inr e ↦ find_key-add_faces rest (add_face d k f) key ∙ rw (find_key-add_face d k key f, e) refl
]

add_faces-append :
    (fs gs : List (ℕ × Face)) (d : List (ℕ × EdgeInfo))
    → add_faces d (fs ++ gs) ≡ add_faces (add_faces d fs) gs
add_faces-append [] gs d = refl
add_faces-append ((k, f) ∷ fs) gs d = add_faces-append fs gs (add_face d k f)

add_element-eq :
    (d : List (ℕ × EdgeInfo)) (id : ℕ) (e : ElementNodes)
    → add_element d (id, e) ≡ add_faces d (faces_of id e)
unfolding add_element for_range
add_element-eq d id e = refl

pub foldl-add_element :
    (elements : List (ℕ × ElementNodes)) (d : List (ℕ × EdgeInfo))
    → foldl add_element d elements ≡ add_faces d (faces elements)
foldl-add_element [] d = refl
foldl-add_element ((id, e) ∷ rest) d =
    ap (λ x. foldl add_element x rest) (add_element-eq d id e)
    ∙ foldl-add_element rest (add_faces d (faces_of id e))
    ∙ sym (add_faces-append (faces_of id e) (faces rest) d)

summary-none : (fs : List Face) → summary none fs ≡ edge_of fs
summary-none [] = refl
summary-none (f ∷ fs) = summary-some (record { first = f; second = no_face }) fs

find_key-empty : (key : ℕ) → find_key {A = EdgeInfo} [] key ≡ none
unfolding find_key
find_key-empty key = refl

-- The dictionary holds exactly the keys of the elements' faces; under a key stand the first face
-- that has it and the last of the others, or the default where there is no other.
pub edge_dictionary_lem :
    (elements : List (ℕ × ElementNodes)) (key : ℕ)
    → find_key (edge_dictionary elements) key ≡ edge_of (with_key key (faces elements))
unfolding edge_dictionary
edge_dictionary_lem elements key =
    ap (λ d. find_key d key) (foldl-add_element elements [])
    ∙ find_key-add_faces (faces elements) [] key
    ∙ ap (λ o. summary o (with_key key (faces elements))) (find_key-empty key)
    ∙ summary-none (with_key key (faces elements))
