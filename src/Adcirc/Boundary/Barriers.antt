-- ===== src/Adcirc/Boundary/Barriers.antt =====
-- What `get_internal_node_pair` finds (source/preprocessor/ADCIRC_reader/adcirc_format.cpp).
use dgswemv.Prelude.{
  ℕ, ◌^◌, ◌<◌, ◌≡◌, ◌≢◌, ◌⊎◌, inl, inr, subst, none, some, List, [], ◌∷◌, arith, get_or, length,
  Option-cases,
}
use dgswemv.Adcirc.Boundary.{search_side, search_barriers, get_internal_node_pair}
use dgswemv.Adcirc.{Boundaries}
use dgswemv.Adcirc.Boundary.Edges.{Neighbours}
use dgswemv.Adcirc.Boundary.Opposite.{IsOpposite, search_side_sound, search_side_complete}

-- Every entry of `IBCONN` has as many back nodes as its segment has front nodes, at least two.
abbrev pub IsPaired : List (List ℕ) → List (ℕ × List ℕ) → Type 0
IsPaired nbvv [] = Unit
IsPaired nbvv ((segment, back) ∷ rest) =
    (length back ≡ length (get_or nbvv segment []))
    × (1 < length back)
    × (length back < 2 ^ 32)
    × IsPaired nbvv rest

-- Some barrier has the two nodes opposite each other, on one side or the other.
abbrev pub OnBarrier : List (List ℕ) → List (ℕ × List ℕ) → (a b p q : ℕ) → Type 0
OnBarrier nbvv [] a b p q = ⊥
OnBarrier nbvv ((segment, back) ∷ rest) a b p q =
    IsOpposite (get_or nbvv segment []) back a b p q
    ⊎ IsOpposite back (get_or nbvv segment []) a b p q
    ⊎ OnBarrier nbvv rest a b p q

search_barriers_sound :
    (nbvv : List (List ℕ)) (barriers : List (ℕ × List ℕ)) (a b p q : ℕ)
    → IsPaired nbvv barriers
    → search_barriers nbvv barriers a b ≡ some (p, q)
    → OnBarrier nbvv barriers a b p q
unfolding search_barriers
search_barriers_sound nbvv [] a b p q paired h = cc
search_barriers_sound nbvv ((segment, back) ∷ rest) a b p q (same, two, small, paired) h =
    let front = get_or nbvv segment [] in
    elim (Option-cases (search_side front back (length front) a b)) [
      | inr (pair, e) ↦
          inl (search_side_sound front back a b p q (omega arith) (omega arith) (ground arith))
      | inl none_front ↦ elim (Option-cases (search_side back front (length front) a b)) [
        | inr (pair, e) ↦ inr (
            inl (
              search_side_sound back front a b p q (omega arith) (omega arith)
                (rw same (ground arith))))
        | inl none_back ↦ inr (inr (search_barriers_sound nbvv rest a b p q paired (ground arith)))
      ]
    ]

-- Some barrier has the two nodes as neighbours on one of its sides.
abbrev pub BesideBarrier : List (List ℕ) → List (ℕ × List ℕ) → (a b : ℕ) → Type 0
BesideBarrier nbvv [] a b = ⊥
BesideBarrier nbvv ((segment, back) ∷ rest) a b =
    Neighbours a b (get_or nbvv segment []) ⊎ Neighbours a b back ⊎ BesideBarrier nbvv rest a b

search_barriers_complete :
    (nbvv : List (List ℕ)) (barriers : List (ℕ × List ℕ)) (a b : ℕ)
    → IsPaired nbvv barriers
    → BesideBarrier nbvv barriers a b
    → search_barriers nbvv barriers a b ≢ none
unfolding search_barriers
search_barriers_complete nbvv [] a b paired h = absurd h
search_barriers_complete nbvv ((segment, back) ∷ rest) a b (same, two, small, paired) h =
    let front = get_or nbvv segment [] in
    elim h [
      | inl near ↦ ground (arith, search_side_complete front back a b (omega arith) near)
      | inr (inl near) ↦
          let found =
            subst (λ n. search_side back front n a b ≢ none) same
              (search_side_complete back front a b small near) in
          ground arith
      | inr (inr near) ↦ ground (arith, search_barriers_complete nbvv rest a b paired near)
    ]

-- If every barrier has as many back nodes as front nodes and at least two, then a pair of nodes
-- that are neighbours on some side of some barrier has an internal pair, and that pair holds the
-- nodes opposite the second and the first node on one such barrier.
pub get_internal_node_pair_lem :
    {D : Type 0} (bd : Boundaries D) (a b : ℕ)
    → IsPaired bd.nbvv bd.ibconn
    → BesideBarrier bd.nbvv bd.ibconn a b
    → (p : ℕ) × (q : ℕ) × (get_internal_node_pair bd a b ≡ some (p, q))
      × OnBarrier bd.nbvv bd.ibconn a b p q
unfolding get_internal_node_pair
get_internal_node_pair_lem bd a b paired near =
    elim (Option-cases (search_barriers bd.nbvv bd.ibconn a b)) [
      | inl e ↦ absurd (search_barriers_complete bd.nbvv bd.ibconn a b paired near e)
      | inr ((p, q), e) ↦ (p, q, e, search_barriers_sound bd.nbvv bd.ibconn a b p q paired e)
    ]
