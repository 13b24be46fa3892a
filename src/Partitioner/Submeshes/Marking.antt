-- ===== src/Partitioner/Submeshes/Marking.antt =====
-- Which faces the loop over the split edges marks as distributed (partitioner/partition.cpp).
use dgswemv.Prelude.{
  ℕ, zero, suc, ◌≤◌, ◌<◌, ◌≡◌, ◌≢◌, inl, inr, refl, ap, ◌∙◌, sym, Bool, true, false, not, ◌&&◌,
  ◌||◌, ◌==◌, if◌then◌else◌, min, max, Option, none, some, List, [], ◌∷◌, get_elem?, get_or, set,
  arith, bind, bind-eq-some, Bool-cases,
}
use dgswemv.BoundaryTypes.{distributed}
use dgswemv.Adcirc.Boundary.{find_key}
use dgswemv.Metadata.{ElementMetaData, default_id}
use dgswemv.Partitioner.Csr.{EdgeWeights, find_pair, same_pair}
use dgswemv.Double.{Double}
use dgswemv.Partitioner.Weights.{Elements, edge_weights}
use dgswemv.Partitioner.Weights.Edges.{
  is_found, has_pair, IsKeyed, same_pair-eq, has_pair-cons, edge_weights-IsKeyed,
  edge_weights-enters,
}
use dgswemv.Partitioner.Layout.{Layout, Slot, locate}
use dgswemv.Partitioner.Submeshes.{
  Submeshes, modify_mesh, mark_element, mark_submesh, mark_face, mark_side, mark_edge, mark_edges,
}
use dgswemv.Partitioner.Submeshes.Lookup.{view, marked_if, view-mark}

-- The type of face `k` of an element, in the submesh where the layout puts it.
unfoldable pub type_at : {D : Type 0} → Layout → Submeshes D → ℕ → ℕ → Option ℕ
type_at l ms e k = bind (view l ms e) (λ x. get_elem? x.boundary_types k)

abbrev pub raise : Bool → Option ℕ → Option ℕ
raise b o = if b then bind o (λ t. some (distributed t)) else o

get_elem?-mark :
    (types : List ℕ) (k k' : ℕ)
    → get_elem? (set types k (distributed (get_or types k 0))) k'
      ≡ raise (k' == k) (get_elem? types k')
get_elem?-mark [] k k' = ground arith
get_elem?-mark (t ∷ ts) zero zero = refl
get_elem?-mark (t ∷ ts) zero (suc k') = ground arith
get_elem?-mark (t ∷ ts) (suc k) zero = ground arith
get_elem?-mark (t ∷ ts) (suc k) (suc k') = ground (arith, get_elem?-mark ts k k')

module _ {D : Type 0} (l : Layout) where
  type_at-mark :
      (ms ms' : Submeshes D) (s : Slot) (elt k e k' : ℕ)
      → locate l elt ≡ some s
      → modify_mesh ms s (mark_submesh elt k) ≡ some ms'
      → type_at l ms' e k' ≡ raise (e == elt && k' == k) (type_at l ms e k')
  unfolding type_at mark_element
  type_at-mark ms ms' s elt k e k' at h =
      ap (λ o. bind o (λ x. get_elem? x.boundary_types k')) (view-mark l ms ms' s elt k e at h)
      ∙ of_view (e == elt) (view l ms e)
    where
      of_view :
          (b : Bool) (o : Option ElementMetaData)
          → bind (marked_if b k o) (λ x. get_elem? x.boundary_types k')
            ≡ raise (b && k' == k) (bind o (λ x. get_elem? x.boundary_types k'))
      of_view false o = refl
      of_view true none = ground arith
      of_view true (some x) = get_elem?-mark x.boundary_types k k'

  mark_face_lem :
      (ms ms' : Submeshes D) (s : Slot) (elt other k e k' : ℕ) (meta : ElementMetaData)
      → locate l elt ≡ some s
      → mark_face s elt meta other k ms ≡ some ms'
      → type_at l ms' e k'
        ≡ raise ((e == elt && k' == k) && other == get_or meta.neighbor_ids k 0) (type_at l ms e k')
  unfolding mark_face
  mark_face_lem ms ms' s elt other k e k' meta at h =
      elim (Bool-cases (other == get_or meta.neighbor_ids k 0)) [
        | inl q ↦
            rw (q, and-true (e == elt && k' == k))
              (type_at-mark ms ms' s elt k e k' at (rw (q, mark_face) at h))
        | inr q ↦
            let same : some ms ≡ some ms' = rw (q, mark_face) at h in
            let same' : ms' ≡ ms = cc in
            rw (q, and-false (e == elt && k' == k)) (ap (λ x. type_at l x e k') same')
      ]
    where
      and-true : (b : Bool) → (b && true) ≡ b
      and-true true = refl
      and-true false = refl

      and-false : (b : Bool) → (b && false) ≡ false
      and-false true = refl
      and-false false = refl

  mark_side_lem :
      (ms ms' : Submeshes D) (elements : Elements) (elt other e k : ℕ) (meta : ElementMetaData)
      → mark_side l elements elt other ms ≡ some ms'
      → find_key elements e ≡ some meta
      → k < 3
      → type_at l ms' e k
        ≡ raise (e == elt && other == get_or meta.neighbor_ids k 0) (type_at l ms e k)
  unfolding mark_side
  mark_side_lem ms ms' elements elt other e k meta h there low =
      let (s, at, h1) = bind-eq-some (locate l elt) _ h in
      let (meta', there', h2) = bind-eq-some (find_key elements elt) _ h1 in
      let (ms1, m0, h3) = bind-eq-some (mark_face s elt meta' other 0 ms) _ h2 in
      let (ms2, m1, m2) = bind-eq-some (mark_face s elt meta' other 1 ms1) _ h3 in
      let f0 = mark_face_lem ms ms1 s elt other 0 e k meta' at m0 in
      let f1 = mark_face_lem ms1 ms2 s elt other 1 e k meta' at m1 in
      let f2 = mark_face_lem ms2 ms' s elt other 2 e k meta' at m2 in
      let hit = λ (j : ℕ). (e == elt && k == j) && other == get_or meta'.neighbor_ids j 0 in
      f2
      ∙ ap (raise (hit 2)) f1
      ∙ ap (λ o. raise (hit 2) (raise (hit 1) o)) f0
      ∙ faces k (type_at l ms e k) meta' low (λ q.
        let one : e ≡ elt = ground arith in
        let two : some meta' ≡ some meta = sym there' ∙ ap (find_key elements) (sym one) ∙ there in
        let same : meta' ≡ meta = cc in same)
    where
      faces :
          (k : ℕ) (t : Option ℕ) (meta' : ElementMetaData)
          → k < 3
          → ((e == elt) ≡ true → meta' ≡ meta)
          → raise ((e == elt && k == 2) && other == get_or meta'.neighbor_ids 2 0) (
              raise
                ((e == elt && k == 1) && other == get_or meta'.neighbor_ids 1 0)
                (raise ((e == elt && k == 0) && other == get_or meta'.neighbor_ids 0 0) t))
            ≡ raise (e == elt && other == get_or meta.neighbor_ids k 0) t
      faces k t meta' low same = elim (Bool-cases (e == elt)) [
        | inr q ↦ rw q
        | inl q ↦ rw (same q, q) (three k low)
      ]
        where
          three :
              (k : ℕ)
              → k < 3
              → raise ((true && k == 2) && other == get_or meta.neighbor_ids 2 0) (
                  raise
                    ((true && k == 1) && other == get_or meta.neighbor_ids 1 0)
                    (raise ((true && k == 0) && other == get_or meta.neighbor_ids 0 0) t))
                ≡ raise (true && other == get_or meta.neighbor_ids k 0) t
          three zero low = refl
          three (suc zero) low = refl
          three (suc (suc zero)) low = refl
          three (suc (suc (suc k))) low = absurd (omega arith)

-- The two elements are in different partitions.
abbrev pub cut : Layout → ℕ → ℕ → Bool
cut l a b = elim (find_key l.elt2partition a) [
  | none ↦ false
  | some p ↦ elim (find_key l.elt2partition b) [ none ↦ false | some q ↦ not (p == q) ]
]

pair_lem :
    (a b e n : ℕ)
    → a ≤ b
    → same_pair (a, b) (min e n, max e n) ≡ ((e == a && b == n) || (e == b && a == n))
pair_lem a b e n le = ground arith

cut-eq :
    (l : Layout) (a b p q : ℕ)
    → find_key l.elt2partition a ≡ some p
    → find_key l.elt2partition b ≡ some q
    → cut l a b ≡ not (p == q)
cut-eq l a b p q ep eq = ground arith

not_eq_comm : (p q : ℕ) → not (q == p) ≡ not (p == q)
not_eq_comm p q = ground arith

-- The face across which `n` lies is on the edge of `a` and `b`, and that edge is split.
hit_lem :
    (l : Layout) (a b e n p q : ℕ)
    → a ≤ b
    → find_key l.elt2partition a ≡ some p
    → find_key l.elt2partition b ≡ some q
    → (same_pair (a, b) (min e n, max e n) && cut l e n)
      ≡ (((e == a && b == n) || (e == b && a == n)) && not (p == q))
hit_lem l a b e n p q le ep eq = rw (pair_lem a b e n le) (elim (Bool-cases (e == a && b == n)) [
  | inl h ↦
      let one : e ≡ a = ground arith in
      let two : n ≡ b = ground arith in
      let split : cut l e n ≡ not (p == q) =
        ap (λ x. cut l x n) one ∙ ap (cut l a) two ∙ cut-eq l a b p q ep eq in
      rw (h, split)
  | inr h ↦ elim (Bool-cases (e == b && a == n)) [
    | inl h' ↦
        let one : e ≡ b = ground arith in
        let two : n ≡ a = ground arith in
        let split : cut l e n ≡ not (p == q) =
          ap (λ x. cut l x n) one ∙ ap (cut l b) two ∙ cut-eq l b a q p eq ep ∙ not_eq_comm p q in
        rw (h, h', split)
    | inr h' ↦ rw (h, h')
  ]
])

module _ {D : Type 0} (l : Layout) (elements : Elements) (e k n : ℕ) (meta : ElementMetaData)
    (there : find_key elements e ≡ some meta) (low : k < 3)
    (across : get_or meta.neighbor_ids k 0 ≡ n) where
  mark_side_at :
      (ms ms' : Submeshes D) (elt other : ℕ)
      → mark_side l elements elt other ms ≡ some ms'
      → type_at l ms' e k ≡ raise (e == elt && other == n) (type_at l ms e k)
  mark_side_at ms ms' elt other h =
      mark_side_lem l ms ms' elements elt other e k meta h there low
      ∙ ap (λ x. raise (e == elt && other == x) (type_at l ms e k)) across

  mark_edge_lem :
      (ms ms' : Submeshes D) (a b : ℕ)
      → a ≤ b
      → mark_edge l elements a b ms ≡ some ms'
      → type_at l ms' e k
        ≡ raise (same_pair (a, b) (min e n, max e n) && cut l e n) (type_at l ms e k)
  unfolding mark_edge
  mark_edge_lem ms ms' a b le h =
      let (p, ep, h1) = bind-eq-some (find_key l.elt2partition a) _ h in
      let (q, eq, h2) = bind-eq-some (find_key l.elt2partition b) _ h1 in
      elim (Bool-cases (p == q)) [
        | inl same ↦
            let kept : some ms ≡ some ms' = rw (same, mark_edge) at h2 in
            let kept' : ms' ≡ ms = cc in ap (λ x. type_at l x e k) kept' ∙ not_hit p q ep eq same
        | inr apart ↦
            let (ms1, one, two) = bind-eq-some (mark_side l elements a b ms) _ (rw apart at h2) in
            mark_side_at ms1 ms' b a two
            ∙ ap (raise (e == b && a == n)) (mark_side_at ms ms1 a b one)
            ∙ hit p q ep eq apart
      ]
    where
      never : (x : Bool) → type_at l ms e k ≡ raise (x && not true) (type_at l ms e k)
      never true = refl
      never false = refl

      not_hit :
          (p q : ℕ)
          → find_key l.elt2partition a ≡ some p
          → find_key l.elt2partition b ≡ some q
          → (p == q) ≡ true
          → type_at l ms e k
            ≡ raise (same_pair (a, b) (min e n, max e n) && cut l e n) (type_at l ms e k)
      not_hit p q ep eq same =
          rw (hit_lem l a b e n p q le ep eq, same)
            (never ((e == a && b == n) || (e == b && a == n)))

      hit :
          (p q : ℕ)
          → find_key l.elt2partition a ≡ some p
          → find_key l.elt2partition b ≡ some q
          → (p == q) ≡ false
          → raise (e == b && a == n) (raise (e == a && b == n) (type_at l ms e k))
            ≡ raise (same_pair (a, b) (min e n, max e n) && cut l e n) (type_at l ms e k)
      hit p q ep eq apart =
          rw (hit_lem l a b e n p q le ep eq, apart)
            (once (e == a && b == n) (e == b && a == n) (λ h h'.
              let same : a ≡ b = ground arith in
              let same' : p ≡ q = some_eq p q (sym ep ∙ ap (find_key l.elt2partition) same ∙ eq) in
              ground arith))
        where
          some_eq : (p q : ℕ) → some p ≡ some q → p ≡ q
          some_eq p q h = cc

          once :
              (x y : Bool)
              → (x ≡ true → y ≡ true → ⊥)
              → raise y (raise x (type_at l ms e k)) ≡ raise ((x || y) && true) (type_at l ms e k)
          once true true h = absurd (h refl refl)
          once true false h = refl
          once false true h = refl
          once false false h = refl

  -- The loop over edges whose keys are ordered and stand once.
  mark_edges_lem :
      (ew : EdgeWeights D) (ms ms' : Submeshes D)
      → IsKeyed ew
      → mark_edges l elements ew ms ≡ some ms'
      → type_at l ms' e k ≡ raise (has_pair ew (min e n, max e n) && cut l e n) (type_at l ms e k)
  unfolding mark_edges find_pair
  mark_edges_lem [] ms ms' keyed h = let same : ms' ≡ ms = cc in ap (λ x. type_at l x e k) same
  mark_edges_lem (((a, b), w) ∷ rest) ms ms' (le, new, keyed) h =
      let (ms1, one, two) = bind-eq-some (mark_edge l elements a b ms) _ h in
      mark_edges_lem rest ms1 ms' keyed two
      ∙ ap (raise (has_pair rest (min e n, max e n) && cut l e n)) (mark_edge_lem ms ms1 a b le one)
      ∙ join (has_pair rest (min e n, max e n)) (cut l e n) (same_pair (a, b) (min e n, max e n))
          (type_at l ms e k)
          (λ h.
            let (one, two) = same_pair-eq a b (min e n) (max e n) h in
            let gone : find_pair rest (min e n, max e n) ≡ none =
              ap (λ x. find_pair rest (x, max e n)) one
              ∙ ap (λ x. find_pair rest (a, x)) two
              ∙ new in
            ap is_found gone)
      ∙ ap (λ b. raise (b && cut l e n) (type_at l ms e k))
          (sym (has_pair-cons rest a b (min e n) (max e n) w))
    where
      join :
          (y c x : Bool) (t : Option ℕ)
          → (x ≡ true → y ≡ false)
          → raise (y && c) (raise (x && c) t) ≡ raise ((x || y) && c) t
      join true c true t h = absurd (let bad : true ≡ false = h refl in cc)
      join true true false t h = refl
      join true false false t h = refl
      join false true true t h = refl
      join false false true t h = refl
      join false true false t h = refl
      join false false false t h = refl

module _ {D : Type 0} ⦃double : Double D⦄ where
  -- After the loop over the edges of the mesh, the face of an element across which a
  -- neighbour lies is marked as distributed exactly when the two are in different partitions:
  -- its boundary type is then raised by the distributed offset once, however often the edge is
  -- met, and is otherwise what it was.
  pub mark_edges-cut :
      (l : Layout) (elements : Elements) (ms ms' : Submeshes D) (e k n : ℕ) (meta : ElementMetaData)
      → find_key elements e ≡ some meta
      → get_elem? meta.neighbor_ids k ≡ some n
      → k < 3
      → n ≢ default_id
      → mark_edges l elements (edge_weights {D = D} elements) ms ≡ some ms'
      → type_at l ms' e k ≡ raise (cut l e n) (type_at l ms e k)
  mark_edges-cut l elements ms ms' e k n meta there at low real h =
      mark_edges_lem l elements e k n meta there low (get_or-get_elem? meta.neighbor_ids k n at)
        (edge_weights elements) ms ms' (edge_weights-IsKeyed D elements) h
      ∙ ap (λ b. raise (b && cut l e n) (type_at l ms e k))
          (edge_weights-enters D elements e n k meta there at real)
    where
      get_or-get_elem? : (ns : List ℕ) (k n : ℕ) → get_elem? ns k ≡ some n → get_or ns k 0 ≡ n
      get_or-get_elem? [] k n h = cc
      get_or-get_elem? (x ∷ xs) zero n h = cc
      get_or-get_elem? (x ∷ xs) (suc k) n h = get_or-get_elem? xs k n h
