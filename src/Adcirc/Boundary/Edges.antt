-- ===== src/Adcirc/Boundary/Edges.antt =====
-- What `has_edge` decides (source/preprocessor/ADCIRC_reader/adcirc_format.cpp).
use dgswemv.Prelude.{
  ℕ, ◌≡◌, ◌≢◌, ◌↔◌, ◌⊎◌, inl, inr, true, ◌==◌, Option, none, some, List, [], ◌∷◌, arith, Bool-cases,
}
use dgswemv.Adcirc.Boundary.{has_edge_from, has_edge}

-- `a` stands at some position of the list and `b` right after it.
abbrev pub Consecutive : ℕ → ℕ → List ℕ → Type 0
Consecutive a b [] = ⊥
Consecutive a b (x ∷ []) = ⊥
Consecutive a b (x ∷ y ∷ rest) = (x ≡ a) × (y ≡ b) ⊎ Consecutive a b (y ∷ rest)

-- The nodes are neighbours in the list, in one order or the other.
abbrev pub Neighbours : ℕ → ℕ → List ℕ → Type 0
Neighbours a b l = Consecutive a b l ⊎ Consecutive b a l

abbrev Preceded : Option ℕ → ℕ → ℕ → List ℕ → Type 0
Preceded none a b l = Neighbours a b l
Preceded (some p) a b l = Neighbours a b (p ∷ l)

-- `before` is not the node that is searched for.
abbrev Apart : Option ℕ → ℕ → Type 0
Apart none a = Unit
Apart (some p) a = p ≢ a

has_edge_from_iff :
    (before : Option ℕ) (l : List ℕ) (a b : ℕ)
    → Apart before a
    → (has_edge_from before l a b ≡ true) ↔ Preceded before a b l
unfolding has_edge_from
has_edge_from_iff none [] a b h = ground arith
has_edge_from_iff (some p) [] a b h = ground arith
has_edge_from_iff none (x ∷ []) a b h = ground arith
has_edge_from_iff (some p) (x ∷ []) a b h = ground arith
has_edge_from_iff none (x ∷ y ∷ ys) a b h = elim (Bool-cases (x == a)) [
  | inl e ↦ ground (arith, has_edge_from_iff none (y ∷ ys) a b tt)
  | inr e ↦ ground (arith, has_edge_from_iff (some x) (y ∷ ys) a b (λ q. ground arith))
]
has_edge_from_iff (some p) (x ∷ y ∷ ys) a b h = elim (Bool-cases (x == a)) [
  | inl e ↦ ground (arith, has_edge_from_iff none (y ∷ ys) a b tt)
  | inr e ↦ ground (arith, has_edge_from_iff (some x) (y ∷ ys) a b (λ q. ground arith))
]

-- `has_edge` answers true exactly if the two nodes stand next to each other somewhere in the range,
-- in one order or the other.
pub has_edge_iff : (range : List ℕ) (a b : ℕ) → (has_edge range a b ≡ true) ↔ Neighbours a b range
unfolding has_edge
has_edge_iff range a b = has_edge_from_iff none range a b tt

pub has_edge_comm : (range : List ℕ) (a b : ℕ) → has_edge range a b ≡ has_edge range b a
has_edge_comm range a b = ground (arith, has_edge_iff range a b, has_edge_iff range b a)
