-- ===== src/Metadata/Disjoint.antt =====
-- No face stands twice in the edge dictionary (source/preprocessor/mesh_metadata.cpp).
use dgswemv.Prelude.{
  ℕ, ◌≡◌, ◌≢◌, inl, inr, refl, sym, subst, none, some, List, [], ◌∷◌, ◌==◌, arith, Option-cases,
  Bool-cases,
}
use dgswemv.Adcirc.{ElementNodes}
use dgswemv.Adcirc.Boundary.{find_key}
use dgswemv.Metadata.{Face, EdgeInfo, put_key, add_face, edge_dictionary}
use dgswemv.Metadata.Dictionary.{faces, add_faces, foldl-add_element}
use dgswemv.Metadata.Faces.{Apart}
use dgswemv.Metadata.Linking.{Untouched, AllUntouched, IsDisjoint}

swap : {f g : Face} → Apart f g → Apart g f
swap (inl h) = inl (λ e. h (sym e))
swap (inr h) = inr (λ e. h (sym e))

abbrev closed : EdgeInfo → Face → EdgeInfo
closed info f = record info { second = f }

put_key-AllUntouched :
    (d : List (ℕ × EdgeInfo)) (key : ℕ) (info : EdgeInfo) (f g : Face)
    → Apart info.first g
    → Apart f g
    → AllUntouched g d
    → AllUntouched g (put_key d key (closed info f))
unfolding put_key
put_key-AllUntouched [] key info f g first second h = tt
put_key-AllUntouched ((k, u) ∷ rest) key info f g first second (now, later) =
    elim (Bool-cases (k == key)) [
      | inl e ↦ rw e ((first, inr second), later)
      | inr e ↦ rw e (now, put_key-AllUntouched rest key info f g first second later)
    ]

find_key-AllUntouched :
    (d : List (ℕ × EdgeInfo)) (key : ℕ) (info : EdgeInfo) (g : Face)
    → find_key d key ≡ some info
    → AllUntouched g d
    → Untouched g info
unfolding find_key
find_key-AllUntouched [] key info g h all = absurd (let bad : none ≡ some info = h in cc)
find_key-AllUntouched ((k, u) ∷ rest) key info g h (now, later) = elim (Bool-cases (k == key)) [
  | inl e ↦
      let found : some u ≡ some info = rw (e, find_key) at h in
      let same : u ≡ info = cc in subst (Untouched g) same now
  | inr e ↦ find_key-AllUntouched rest key info g (rw (e, find_key) at h) later
]

put_key-IsDisjoint :
    (d : List (ℕ × EdgeInfo)) (key : ℕ) (info : EdgeInfo) (f : Face)
    → find_key d key ≡ some info
    → AllUntouched f d
    → IsDisjoint d
    → IsDisjoint (put_key d key (closed info f))
unfolding find_key put_key
put_key-IsDisjoint [] key info f h new d = absurd (let bad : none ≡ some info = h in cc)
put_key-IsDisjoint ((k, u) ∷ rest) key info f h (now, later) (free, both, d) =
    elim (Bool-cases (k == key)) [
      | inl e ↦
          let found : some u ≡ some info = rw (e, find_key) at h in
          let same : u ≡ info = cc in
          let free' = subst (λ y. AllUntouched y.first rest) same free in
          let now' = subst (λ y. Untouched f y) same now in rw e (free', inr (now'.0, later), d)
      | inr e ↦
          let h' : find_key rest key ≡ some info = rw (e, find_key) at h in
          let keep : (g : Face)
              → AllUntouched g rest
              → Apart f g
              → AllUntouched g (put_key rest key (closed info f)) =
            λ g all apart.
              put_key-AllUntouched rest key info f g
                (find_key-AllUntouched rest key info g h' all).0 apart all in
          rw e (
            keep u.first free (swap now.0),
            elim both [
              | inl none_there ↦ inl none_there
              | inr (apart, all) ↦ elim (now.1) [
                | inl none_there ↦ inl none_there
                | inr second ↦ inr (apart, keep u.second all (swap second))
              ]
            ],
            put_key-IsDisjoint rest key info f h' later d,
          )
    ]

add_face-IsDisjoint :
    (d : List (ℕ × EdgeInfo)) (key : ℕ) (f : Face)
    → AllUntouched f d
    → IsDisjoint d
    → IsDisjoint (add_face d key f)
unfolding add_face
add_face-IsDisjoint d key f new h = elim (Option-cases (find_key d key)) [
  | inl e ↦ rw (e, add_face) (new, inl refl, h)
  | inr (info, e) ↦ rw (e, add_face) (put_key-IsDisjoint d key info f e new h)
]

add_face-AllUntouched :
    (d : List (ℕ × EdgeInfo)) (key : ℕ) (f g : Face)
    → Apart f g
    → AllUntouched g d
    → AllUntouched g (add_face d key f)
unfolding add_face
add_face-AllUntouched d key f g apart h = elim (Option-cases (find_key d key)) [
  | inl e ↦ rw (e, add_face) ((apart, inl refl), h)
  | inr (info, e) ↦
      rw (e, add_face)
        (put_key-AllUntouched d key info f g (find_key-AllUntouched d key info g e h).0 apart h)
]

-- The faces of a list are apart from one another.
abbrev AllApart : Face → List (ℕ × Face) → Type 0
AllApart f [] = Unit
AllApart f ((k, g) ∷ rest) = Apart f g × AllApart f rest

abbrev IsDistinct : List (ℕ × Face) → Type 0
IsDistinct [] = Unit
IsDistinct ((k, f) ∷ rest) = AllApart f rest × IsDistinct rest

abbrev NewTo : List (ℕ × EdgeInfo) → List (ℕ × Face) → Type 0
NewTo d [] = Unit
NewTo d ((k, f) ∷ rest) = AllUntouched f d × NewTo d rest

add_face-NewTo :
    (d : List (ℕ × EdgeInfo)) (key : ℕ) (f : Face) (fs : List (ℕ × Face))
    → AllApart f fs
    → NewTo d fs
    → NewTo (add_face d key f) fs
add_face-NewTo d key f [] apart new = tt
add_face-NewTo d key f ((k, g) ∷ fs) (now, later) (new, rest) =
    (add_face-AllUntouched d key f g now new, add_face-NewTo d key f fs later rest)

add_faces-IsDisjoint :
    (fs : List (ℕ × Face)) (d : List (ℕ × EdgeInfo))
    → IsDistinct fs
    → NewTo d fs
    → IsDisjoint d
    → IsDisjoint (add_faces d fs)
add_faces-IsDisjoint [] d distinct new h = h
add_faces-IsDisjoint ((k, f) ∷ fs) d (apart, distinct) (now, later) h =
    add_faces-IsDisjoint fs (add_face d k f) distinct (add_face-NewTo d k f fs apart later)
      (add_face-IsDisjoint d k f now h)

-- No element number is given twice.
abbrev pub IsUnique : List (ℕ × ElementNodes) → Type 0
IsUnique [] = Unit
IsUnique ((id, e) ∷ rest) = (find_key rest id ≡ none) × IsUnique rest

faces-AllApart :
    (elements : List (ℕ × ElementNodes)) (f : Face)
    → find_key elements f.element ≡ none
    → AllApart f (faces elements)
unfolding find_key
faces-AllApart [] f h = tt
faces-AllApart ((id, e) ∷ rest) f h = elim (Bool-cases (id == f.element)) [
  | inl q ↦ absurd (let bad : some e ≡ none = rw (q, find_key) at h in cc)
  | inr q ↦
      let apart : f.element ≢ id = λ r. ground arith in
      (inl apart, (inl apart, (inl apart, faces-AllApart rest f (rw (q, find_key) at h))))
]

faces-IsDistinct :
    (elements : List (ℕ × ElementNodes)) → IsUnique elements → IsDistinct (faces elements)
faces-IsDistinct [] h = tt
faces-IsDistinct ((id, e) ∷ rest) (new, h) =
    let far : (k : ℕ) → AllApart (record { element = id; face = k }) (faces rest) =
      λ k. faces-AllApart rest (record { element = id; face = k }) new in
    let first : 0 ≢ 1 = omega arith in
    let second : 0 ≢ 2 = omega arith in
    let third : 1 ≢ 2 = omega arith in
    ((inr first, (inr second, far 0)), ((inr third, far 1), (far 2, faces-IsDistinct rest h)))

NewTo-empty : (fs : List (ℕ × Face)) → NewTo [] fs
NewTo-empty [] = tt
NewTo-empty ((k, f) ∷ fs) = (tt, NewTo-empty fs)

-- If no element number is given twice, no face stands in two places of the edge dictionary.
pub edge_dictionary-IsDisjoint :
    (elements : List (ℕ × ElementNodes)) → IsUnique elements → IsDisjoint (edge_dictionary elements)
unfolding edge_dictionary
edge_dictionary-IsDisjoint elements h = subst IsDisjoint (sym (foldl-add_element elements [])) (
    add_faces-IsDisjoint (faces elements) [] (faces-IsDistinct elements h)
      (NewTo-empty (faces elements)) tt)
