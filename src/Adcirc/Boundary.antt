-- ===== src/Adcirc/Boundary.antt =====
-- The queries of source/preprocessor/ADCIRC_reader/adcirc_format.cpp: `has_edge`, `get_ibtype` and
-- `get_internal_node_pair`. `none` is the exception.
pub mod Edges
pub mod Opposite
pub mod Barriers
pub mod Classify
use dgswemv.Prelude.{
  ℕ, zero, suc, ◌+◌, ◌-◌, ◌%◌, ◌^◌, Bool, true, false, ◌&&◌, ◌||◌, ◌==◌, ltb, if◌then◌else◌, Option,
  none, some, List, [], ◌∷◌, get_or, get_elem?, length,
}
use dgswemv.Adcirc.{Boundaries}
use dgswemv.BoundaryTypes.{land, tide, flow, function, outflow, levee}

-- `*(it + 1) == b`, if `it + 1` is in the range.
abbrev pub head_is : List ℕ → ℕ → Bool
head_is [] b = false
head_is (y ∷ ys) b = y == b

-- `*(it - 1) == b`, if `it` is not the beginning of the range.
abbrev pub before_is : Option ℕ → ℕ → Bool
before_is none b = false
before_is (some p) b = p == b

-- The element before the position that `std::find` stops at is `before`, if the range has one.
unfoldable pub has_edge_from : Option ℕ → List ℕ → ℕ → ℕ → Bool
has_edge_from before [] a b = false
has_edge_from before (x ∷ xs) a b =
    let rest = has_edge_from (if x == a then none else some x) xs a b in
    if x == a
    then (if head_is xs b then true else if before_is before b then true else rest)
    else rest

-- `has_edge(cbegin, cend, node_pair)`
unfoldable pub has_edge : List ℕ → ℕ → ℕ → Bool
has_edge range a b = has_edge_from none range a b

unfoldable pub some_has_edge : List (List ℕ) → ℕ → ℕ → Bool
some_has_edge [] a b = false
some_has_edge (l ∷ ls) a b = has_edge l a b || some_has_edge ls a b

-- `map.at(key)`
unfoldable pub find_key {ℓ} : {A : Type ℓ} → List (ℕ × A) → ℕ → Option A
find_key [] key = none
find_key ((k, v) ∷ rest) key = if k == key then some v else find_key rest key

-- What one land segment says: its type, no match, or the exception of `IBCONN.at`.
pub data Verdict : Type 0 where
  is : ℕ → Verdict
  pass fail : Verdict

module _ {D : Type 0} where
  unfoldable pub segment_verdict : Boundaries D → ℕ → ℕ → ℕ → Verdict
  segment_verdict bd segment a b =
      let kind = get_or bd.ibtype segment 0 in
      let nodes = get_or bd.nbvv segment [] in
      let on = has_edge nodes a b in
      if kind % 10 == 0
      then if on then is land else pass
      else if kind % 10 == 2
      then if on then is flow else pass
      else if kind % 10 == 4
      then if on then is levee else elim (find_key bd.ibconn segment) [
        | none ↦ fail
        | some back ↦ if has_edge back a b then is levee else pass
      ]
      else if kind == 77
      then if on then is function else pass
      else if kind == 88
      then if on then is outflow else pass
      else pass

  -- The loop over the land segments; `pass` if none matches.
  unfoldable pub segments_verdict : Boundaries D → ℕ → ℕ → ℕ → ℕ → Verdict
  segments_verdict bd zero segment a b = pass
  segments_verdict bd (suc rounds) segment a b =
      let rest = segments_verdict bd rounds (suc segment) a b in
      elim (segment_verdict bd segment a b) [ is t ↦ is t | fail ↦ fail | pass ↦ rest ]

  unfoldable pub get_ibtype : Boundaries D → ℕ → ℕ → Option ℕ
  get_ibtype bd a b =
      if some_has_edge bd.nbdv a b then some tide else elim (segments_verdict bd bd.nbou 0 a b) [
        | is t ↦ some t
        | fail ↦ none
        | pass ↦ if some_has_edge bd.nbgn a b then some land else none
      ]

-- `n - k` on `uint`
abbrev pub uint_sub : ℕ → ℕ → ℕ
uint_sub n k = (n + 2 ^ 32 - k) % 2 ^ 32

-- The loop `for (node = 1; node < n_nodes - 1; ++node)` over one side of a barrier.
unfoldable pub search_inside : List ℕ → List ℕ → ℕ → ℕ → ℕ → ℕ → Option (ℕ × ℕ)
search_inside front back zero node a b = none
search_inside front back (suc rounds) node a b =
    let rest = search_inside front back rounds (suc node) a b in
    if get_or front node 0 == a
    then if get_or front (suc node) 0 == b
      then some (get_or back (suc node) 0, get_or back node 0)
      else if get_or front (node - 1) 0 == b
      then some (get_or back (node - 1) 0, get_or back node 0)
      else rest
    else rest

-- "Look through segment … for pair": the first pair, the inner nodes, the last pair.
unfoldable pub search_side : List ℕ → List ℕ → ℕ → ℕ → ℕ → Option (ℕ × ℕ)
search_side front back n a b =
    if get_or front 0 0 == a && get_or front 1 0 == b
    then some (get_or back 1 0, get_or back 0 0)
    else elim (search_inside front back (uint_sub n 1 - 1) 1 a b) [
      | some pair ↦ some pair
      | none ↦
          if get_or front (uint_sub n 1) 0 == a && get_or front (uint_sub n 2) 0 == b
          then some (get_or back (uint_sub n 2) 0, get_or back (uint_sub n 1) 0)
          else none
    ]

-- The loop over the entries of `IBCONN`.
unfoldable pub search_barriers : List (List ℕ) → List (ℕ × List ℕ) → ℕ → ℕ → Option (ℕ × ℕ)
search_barriers nbvv [] a b = none
search_barriers nbvv ((segment, ibconn) ∷ rest) a b =
    let others = search_barriers nbvv rest a b in
    let nodes = get_or nbvv segment [] in
    let n = length nodes in
    elim (search_side nodes ibconn n a b) [
      | some pair ↦ some pair
      | none ↦ elim (search_side ibconn nodes n a b) [ some pair ↦ some pair | none ↦ others ]
    ]

module _ {D : Type 0} where
  unfoldable pub get_internal_node_pair : Boundaries D → ℕ → ℕ → Option (ℕ × ℕ)
  get_internal_node_pair bd a b = search_barriers bd.nbvv bd.ibconn a b
