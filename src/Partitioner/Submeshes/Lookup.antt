-- ===== src/Partitioner/Submeshes/Lookup.antt =====
-- What `modify_mesh` does to the elements of the submeshes (partitioner/partition.cpp).
use dgswemv.Prelude.{
  ℕ, zero, suc, ◌≡◌, ◌≢◌, ◌⊎◌, inl, inr, refl, ap, ◌∙◌, sym, Bool, ◌==◌, if◌then◌else◌, Option,
  some, List, [], ◌∷◌, get_elem?, arith, bind, bind-eq-some, Bool-cases, Option-cases,
}
use dgswemv.Adcirc.Boundary.{find_key}
use dgswemv.Metadata.{ElementMetaData, put_key}
use dgswemv.Metadata.Dictionary.{find_key-put_key_self, find_key-put_key_ne}
use dgswemv.Partitioner.Layout.{Layout, Slot, locate}
use dgswemv.Partitioner.Submeshes.{
  Submesh, Submeshes, modify, modify_mesh, mark_element, mark_submesh,
}

modify_self {ℓ} :
    {A : Type ℓ} (xs ys : List A) (i : ℕ) (f : A → Option A)
    → modify xs i f ≡ some ys
    → (x : A) × (y : A) × (get_elem? xs i ≡ some x) × (f x ≡ some y) × (get_elem? ys i ≡ some y)
unfolding modify
modify_self [] ys i f h = cc
modify_self (x ∷ xs) ys zero f h =
    let (y, e, e') = bind-eq-some (f x) (λ z. some (z ∷ xs)) h in
    (x, y, refl, e, let same : ys ≡ y ∷ xs = cc in ap (λ l. get_elem? l 0) same)
modify_self (x ∷ xs) ys (suc i) f h =
    let (zs, e, e') = bind-eq-some (modify xs i f) (λ l. some (x ∷ l)) h in
    let (u, v, a, b, c) = modify_self xs zs i f e in
    (u, v, a, b, let same : ys ≡ x ∷ zs = cc in ap (λ l. get_elem? l (suc i)) same ∙ c)

modify_other {ℓ} :
    {A : Type ℓ} (xs ys : List A) (i j : ℕ) (f : A → Option A)
    → modify xs i f ≡ some ys
    → i ≢ j
    → get_elem? ys j ≡ get_elem? xs j
unfolding modify
modify_other {A} [] ys i j f h n = cc
modify_other {A} (x ∷ xs) ys zero j f h n =
    let (y, e, e') = bind-eq-some (f x) (λ z. some (z ∷ xs)) h in
    let same : ys ≡ y ∷ xs = cc in ap (λ l. get_elem? l j) same ∙ tail y j n
  where
    tail : (y : A) (j : ℕ) → zero ≢ j → get_elem? (y ∷ xs) j ≡ get_elem? (x ∷ xs) j
    tail y zero n = absurd (n refl)
    tail y (suc j) n = refl
modify_other {A} (x ∷ xs) ys (suc i) j f h n =
    let (zs, e, e') = bind-eq-some (modify xs i f) (λ l. some (x ∷ l)) h in
    let same : ys ≡ x ∷ zs = cc in
    ap (λ l. get_elem? l j) same ∙ tail zs j n (λ k m. modify_other xs zs i k f e m)
  where
    tail :
        (zs : List A) (j : ℕ)
        → suc i ≢ j
        → ((k : ℕ) → i ≢ k → get_elem? zs k ≡ get_elem? xs k)
        → get_elem? (x ∷ zs) j ≡ get_elem? (x ∷ xs) j
    tail zs zero n g = refl
    tail zs (suc k) n g = g k (λ e. n (ap suc e))

unfoldable pub mesh_at {ℓ} : {A : Type ℓ} → List (List A) → Slot → Option A
mesh_at ms s = bind (get_elem? ms s.rank) (λ row. get_elem? row s.place)

abbrev pub Apart : Slot → Slot → Type 0
Apart s t = (s.rank ≢ t.rank) ⊎ (s.place ≢ t.place)

pub slot_cases : (s t : Slot) → (s ≡ t) ⊎ Apart s t
slot_cases s t = elim (Bool-cases (s.rank == t.rank)) [
  | inl e ↦ elim (Bool-cases (s.place == t.place)) [
    | inl e' ↦
        let a : s.rank ≡ t.rank = ground arith in
        let b : s.place ≡ t.place = ground arith in inl (λ i. record { rank = a i; place = b i })
    | inr e' ↦ inr (inr (λ q. ground arith))
  ]
  | inr e ↦ inr (inl (λ q. ground arith))
]

module _ {D : Type 0} (ms ms' : Submeshes D) (s : Slot) (f : Submesh D → Option (Submesh D)) where
  pub modify_mesh_self :
      modify_mesh ms s f ≡ some ms'
      → (x : Submesh D) × (y : Submesh D) × (mesh_at ms s ≡ some x)
        × (f x ≡ some y)
        × (mesh_at ms' s ≡ some y)
  unfolding modify_mesh mesh_at
  modify_mesh_self h =
      let (row, row', a, b, c) = modify_self ms ms' s.rank (λ r. modify r s.place f) h in
      let (x, y, d, e, g) = modify_self row row' s.place f b in
      (
        x,
        y,
        ap (λ o. bind o (λ r. get_elem? r s.place)) a ∙ d,
        e,
        ap (λ o. bind o (λ r. get_elem? r s.place)) c ∙ g,
      )

  pub modify_mesh_other :
      (t : Slot) → modify_mesh ms s f ≡ some ms' → Apart s t → mesh_at ms' t ≡ mesh_at ms t
  unfolding modify_mesh mesh_at
  modify_mesh_other t h (inl apart) =
      ap (λ o. bind o (λ r. get_elem? r t.place))
        (modify_other ms ms' s.rank t.rank (λ r. modify r s.place f) h apart)
  modify_mesh_other t h (inr apart) = elim (Bool-cases (s.rank == t.rank)) [
    | inr e ↦
        ap (λ o. bind o (λ r. get_elem? r t.place))
          (modify_other ms ms' s.rank t.rank (λ r. modify r s.place f) h (λ q. ground arith))
    | inl e ↦
        let same : s.rank ≡ t.rank = ground arith in
        let (row, row', a, b, c) = modify_self ms ms' s.rank (λ r. modify r s.place f) h in
        ap (λ n. bind (get_elem? ms' n) (λ r. get_elem? r t.place)) (sym same)
        ∙ ap (λ o. bind o (λ r. get_elem? r t.place)) c
        ∙ modify_other row row' s.place t.place f b apart
        ∙ sym (ap (λ o. bind o (λ r. get_elem? r t.place)) a)
        ∙ ap (λ n. bind (get_elem? ms n) (λ r. get_elem? r t.place)) same
  ]

-- The element of a number, in the submesh where the layout puts it.
unfoldable pub view : {D : Type 0} → Layout → Submeshes D → ℕ → Option ElementMetaData
view l ms e = bind (locate l e) (λ s. bind (mesh_at ms s) (λ m. find_key m.elements e))

abbrev pub marked_if : Bool → ℕ → Option ElementMetaData → Option ElementMetaData
marked_if b k o = if b then bind o (λ e. some (mark_element k e)) else o

abbrev pub element_in : {D : Type 0} → Submeshes D → Slot → ℕ → Option ElementMetaData
element_in ms s e = bind (mesh_at ms s) (λ m. find_key m.elements e)

module _ {D : Type 0} (l : Layout) (ms ms' : Submeshes D) (s : Slot) (elt k : ℕ) where
  mark_submesh_inv :
      (m m' : Submesh D)
      → mark_submesh elt k m ≡ some m'
      → (e : ElementMetaData) × (find_key m.elements elt ≡ some e)
        × (m'.elements ≡ put_key m.elements elt (mark_element k e))
  unfolding mark_submesh
  mark_submesh_inv m m' h =
      let (e, a, b) = bind-eq-some (find_key m.elements elt) _ h in (e, a, ground arith)

  element_in-mark_self :
      modify_mesh ms s (mark_submesh elt k) ≡ some ms'
      → element_in ms' s elt ≡ bind (element_in ms s elt) (λ e. some (mark_element k e))
  element_in-mark_self h =
      let (m, m', before, marked, after) = modify_mesh_self ms ms' s (mark_submesh elt k) h in
      let (e, there, same) = mark_submesh_inv m m' marked in
      ap (λ o. bind o (λ x. find_key x.elements elt)) after
      ∙ ap (λ x. find_key x elt) same
      ∙ find_key-put_key_self m.elements elt (mark_element k e) (λ q. cc)
      ∙ sym (
          ap (λ o. bind (bind o (λ x. find_key x.elements elt)) (λ x. some (mark_element k x)))
            before
          ∙ ap (λ o. bind o (λ x. some (mark_element k x))) there)

  element_in-mark_other :
      (t : Slot) (e : ℕ)
      → modify_mesh ms s (mark_submesh elt k) ≡ some ms'
      → elt ≢ e
      → element_in ms' t e ≡ element_in ms t e
  element_in-mark_other t e h n = elim (slot_cases s t) [
    | inr apart ↦
        ap (λ o. bind o (λ m. find_key m.elements e))
          (modify_mesh_other ms ms' s (mark_submesh elt k) t h apart)
    | inl same ↦
        let (m, m', before, marked, after) = modify_mesh_self ms ms' s (mark_submesh elt k) h in
        let (x, there, put) = mark_submesh_inv m m' marked in
        ap (λ u. element_in ms' u e) (sym same)
        ∙ ap (λ o. bind o (λ y. find_key y.elements e)) after
        ∙ ap (λ y. find_key y e) put
        ∙ find_key-put_key_ne m.elements elt e (mark_element k x) n
        ∙ sym (ap (λ o. bind o (λ y. find_key y.elements e)) before)
        ∙ ap (λ u. element_in ms u e) same
  ]

  -- Marking face `k` of an element where the layout puts it marks that element in the view, and
  -- leaves every other element as it is.
  pub view-mark :
      (e : ℕ)
      → locate l elt ≡ some s
      → modify_mesh ms s (mark_submesh elt k) ≡ some ms'
      → view l ms' e ≡ marked_if (e == elt) k (view l ms e)
  unfolding view
  view-mark e at h = elim (Bool-cases (e == elt)) [
    | inl q ↦ let same : e ≡ elt = ground arith in rw (q, same, at) (element_in-mark_self h)
    | inr q ↦ rw q (other e (λ r. ground arith))
  ]
    where
      other :
          (e : ℕ)
          → elt ≢ e
          → bind (locate l e) (λ t. element_in ms' t e) ≡ bind (locate l e) (λ t. element_in ms t e)
      other e n = elim (Option-cases (locate l e)) [
        | inl none_there ↦ rw none_there
        | inr (t, there) ↦ rw there (element_in-mark_other t e h n)
      ]
