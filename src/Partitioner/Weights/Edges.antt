-- ===== src/Partitioner/Weights/Edges.antt =====
-- The edges between elements (partitioner/partition.cpp).
use dgswemv.Prelude.{
  ℕ, zero, suc, ◌≤◌, ◌≡◌, ◌≢◌, inl, inr, refl, ap, ◌∙◌, Bool, true, false, ◌||◌, ◌==◌, min, max,
  Option, none, some, List, [], ◌∷◌, get_elem?, arith, Bool-cases,
}
use dgswemv.Double.{Double}
use dgswemv.Adcirc.Boundary.{find_key}
use dgswemv.Metadata.{ElementMetaData, default_id}
use dgswemv.Partitioner.Csr.{EdgeWeights, find_pair, same_pair}
use dgswemv.Partitioner.Weights.{
  Elements, put_pair, one_weight, add_edges, edge_weights_from, edge_weights,
}

abbrev pub is_found {ℓ} : {A : Type ℓ} → Option A → Bool
is_found none = false
is_found (some _) = true

abbrev pub has_pair {ℓ} : {A : Type ℓ} → List ((ℕ × ℕ) × A) → ℕ × ℕ → Bool
has_pair ew key = is_found (find_pair ew key)

-- Every key is ordered and stands once.
abbrev pub IsKeyed : {A : Type 0} → List ((ℕ × ℕ) × A) → Type 0
IsKeyed [] = Unit
IsKeyed (((a, b), w) ∷ rest) = (a ≤ b) × (find_pair rest (a, b) ≡ none) × IsKeyed rest

same_pair_self : (a b : ℕ) → same_pair (a, b) (a, b) ≡ true
same_pair_self a b = ground arith

same_pair_trans :
    (a b c d x y : ℕ)
    → same_pair (a, b) (x, y) ≡ true
    → same_pair (c, d) (x, y) ≡ true
    → same_pair (a, b) (c, d) ≡ true
same_pair_trans a b c d x y h k = ground arith

pub same_pair-eq : (a b c d : ℕ) → same_pair (a, b) (c, d) ≡ true → (c ≡ a) × (d ≡ b)
same_pair-eq a b c d h = ground arith

module _ {A : Type 0} where
  pub has_pair-cons :
      (rest : List ((ℕ × ℕ) × A)) (a b c d : ℕ) (w : A)
      → has_pair (((a, b), w) ∷ rest) (c, d) ≡ (same_pair (a, b) (c, d) || has_pair rest (c, d))
  unfolding find_pair
  has_pair-cons rest a b c d w = ground arith

  find_pair-put_pair_self :
      (ew : List ((ℕ × ℕ) × A)) (a b : ℕ) (w : A) → has_pair (put_pair ew (a, b) w) (a, b) ≡ true
  unfolding find_pair put_pair
  find_pair-put_pair_self [] a b w = rw (same_pair_self a b, has_pair, find_pair)
  find_pair-put_pair_self (((c, d), u) ∷ rest) a b w =
      ground (arith, find_pair-put_pair_self rest a b w)

  has_pair-put_pair :
      (ew : List ((ℕ × ℕ) × A)) (a b c d : ℕ) (w : A)
      → has_pair ew (c, d) ≡ true
      → has_pair (put_pair ew (a, b) w) (c, d) ≡ true
  unfolding find_pair put_pair
  has_pair-put_pair [] a b c d w h = cc
  has_pair-put_pair (((x, y), u) ∷ rest) a b c d w h =
      ground (arith, has_pair-put_pair rest a b c d w)

  find_pair-put_pair-none :
      (ew : List ((ℕ × ℕ) × A)) (a b c d : ℕ) (w : A)
      → find_pair ew (c, d) ≡ none
      → same_pair (a, b) (c, d) ≡ false
      → find_pair (put_pair ew (a, b) w) (c, d) ≡ none
  unfolding find_pair put_pair
  find_pair-put_pair-none [] a b c d w h n = ground arith
  find_pair-put_pair-none (((x, y), u) ∷ rest) a b c d w h n =
      ground (arith, find_pair-put_pair-none rest a b c d w)

  put_pair-IsKeyed :
      (ew : List ((ℕ × ℕ) × A)) (a b : ℕ) (w : A)
      → a ≤ b
      → IsKeyed ew
      → IsKeyed (put_pair ew (a, b) w)
  unfolding find_pair put_pair
  put_pair-IsKeyed [] a b w le keyed = (le, refl, tt)
  put_pair-IsKeyed (((x, y), u) ∷ rest) a b w le (le', new, keyed) =
      elim (Bool-cases (same_pair (x, y) (a, b))) [
        | inl h ↦ rw h (le', new, keyed)
        | inr h ↦ rw h (
          le',
          find_pair-put_pair-none rest a b x y w new (ground arith),
          put_pair-IsKeyed rest a b w le keyed,
        )
      ]

module _ {D : Type 0} ⦃double : Double D⦄ where
  add_edges-IsKeyed :
      (ew : EdgeWeights D) (id : ℕ) (ns : List ℕ) → IsKeyed ew → IsKeyed (add_edges ew id ns)
  unfolding add_edges
  add_edges-IsKeyed ew id [] keyed = keyed
  add_edges-IsKeyed ew id (n ∷ ns) keyed = elim (Bool-cases (n == default_id)) [
    | inl h ↦ rw h (add_edges-IsKeyed ew id ns keyed)
    | inr h ↦ rw h (
        add_edges-IsKeyed (put_pair ew (min id n, max id n) one_weight) id ns
          (put_pair-IsKeyed ew (min id n) (max id n) one_weight (omega arith) keyed))
  ]

  edge_weights_from-IsKeyed :
      (elements : Elements) (ew : EdgeWeights D)
      → IsKeyed ew
      → IsKeyed (edge_weights_from ew elements)
  unfolding edge_weights_from
  edge_weights_from-IsKeyed [] ew keyed = keyed
  edge_weights_from-IsKeyed ((id, e) ∷ rest) ew keyed =
      edge_weights_from-IsKeyed rest (add_edges ew id e.neighbor_ids)
        (add_edges-IsKeyed ew id e.neighbor_ids keyed)

  -- What is entered stays.
  add_edges-keeps :
      (ew : EdgeWeights D) (id a b : ℕ) (ns : List ℕ)
      → has_pair ew (a, b) ≡ true
      → has_pair (add_edges ew id ns) (a, b) ≡ true
  unfolding add_edges
  add_edges-keeps ew id a b [] h = h
  add_edges-keeps ew id a b (n ∷ ns) h = elim (Bool-cases (n == default_id)) [
    | inl e ↦ rw e (add_edges-keeps ew id a b ns h)
    | inr e ↦ rw e (
        add_edges-keeps (put_pair ew (min id n, max id n) one_weight) id a b ns
          (has_pair-put_pair ew (min id n) (max id n) a b one_weight h))
  ]

  add_edges-enters :
      (ew : EdgeWeights D) (id n k : ℕ) (ns : List ℕ)
      → get_elem? ns k ≡ some n
      → n ≢ default_id
      → has_pair (add_edges ew id ns) (min id n, max id n) ≡ true
  unfolding add_edges
  add_edges-enters ew id n k [] h real = cc
  add_edges-enters ew id n zero (m ∷ ns) h real =
      let same : m ≡ n = cc in
      let other : (m == default_id) ≡ false = ground arith in
      rw other (
        add_edges-keeps (put_pair ew (min id m, max id m) one_weight) id (min id n) (max id n) ns (
          ap (λ x. has_pair (put_pair ew (min id x, max id x) one_weight) (min id n, max id n)) same
          ∙ find_pair-put_pair_self ew (min id n) (max id n) one_weight))
  add_edges-enters ew id n (suc k) (m ∷ ns) h real = elim (Bool-cases (m == default_id)) [
    | inl e ↦ rw e (add_edges-enters ew id n k ns h real)
    | inr e ↦ rw e (add_edges-enters (put_pair ew (min id m, max id m) one_weight) id n k ns h real)
  ]

  edge_weights_from-keeps :
      (elements : Elements) (ew : EdgeWeights D) (a b : ℕ)
      → has_pair ew (a, b) ≡ true
      → has_pair (edge_weights_from ew elements) (a, b) ≡ true
  unfolding edge_weights_from
  edge_weights_from-keeps [] ew a b h = h
  edge_weights_from-keeps ((id, e) ∷ rest) ew a b h =
      edge_weights_from-keeps rest (add_edges ew id e.neighbor_ids) a b
        (add_edges-keeps ew id a b e.neighbor_ids h)

  edge_weights_from-enters :
      (elements : Elements) (ew : EdgeWeights D) (id n k : ℕ) (meta : ElementMetaData)
      → find_key elements id ≡ some meta
      → get_elem? meta.neighbor_ids k ≡ some n
      → n ≢ default_id
      → has_pair (edge_weights_from ew elements) (min id n, max id n) ≡ true
  unfolding edge_weights_from find_key
  edge_weights_from-enters [] ew id n k meta h at real =
      absurd (let bad : none ≡ some meta = h in cc)
  edge_weights_from-enters ((j, e) ∷ rest) ew id n k meta h at real = elim (Bool-cases (j == id)) [
    | inr q ↦
        edge_weights_from-enters rest (add_edges ew j e.neighbor_ids) id n k meta
          (rw (q, find_key) at h) at real
    | inl q ↦
        let found : some e ≡ some meta = rw (q, find_key) at h in
        let same : e ≡ meta = cc in
        let one : j ≡ id = ground arith in
        edge_weights_from-keeps rest (add_edges ew j e.neighbor_ids) (min id n) (max id n) (
          ap (λ x. has_pair (add_edges ew x e.neighbor_ids) (min id n, max id n)) one
          ∙ add_edges-enters ew id n k e.neighbor_ids
              (ap (λ x. get_elem? x.neighbor_ids k) same ∙ at) real)
  ]

module _ (D : Type 0) ⦃double : Double D⦄ where
  pub edge_weights-IsKeyed : (elements : Elements) → IsKeyed (edge_weights {D = D} elements)
  unfolding edge_weights
  edge_weights-IsKeyed elements = edge_weights_from-IsKeyed elements [] tt

  -- Every element and each of its neighbours are the ends of an edge.
  pub edge_weights-enters :
      (elements : Elements) (id n k : ℕ) (meta : ElementMetaData)
      → find_key elements id ≡ some meta
      → get_elem? meta.neighbor_ids k ≡ some n
      → n ≢ default_id
      → has_pair (edge_weights {D = D} elements) (min id n, max id n) ≡ true
  unfolding edge_weights
  edge_weights-enters elements id n k meta h at real =
      edge_weights_from-enters elements [] id n k meta h at real
