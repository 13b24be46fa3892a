-- ===== src/Adcirc/Boundary/Opposite.antt =====
-- What the search of one side of a barrier finds
-- (source/preprocessor/ADCIRC_reader/adcirc_format.cpp).
use dgswemv.Prelude.{
  ℕ, zero, suc, ◌+◌, ◌-◌, ◌^◌, ◌≤◌, ◌<◌, ◌≡◌, ◌≢◌, ◌⊎◌, inl, inr, refl, ◌&&◌, ◌==◌, Option, none,
  some, List, [], ◌∷◌, arith, get_or, length, Bool-cases, Option-cases,
}
use native.Mathlib.Decide.{ℕ_discrete}
use dgswemv.Adcirc.Boundary.{uint_sub, search_inside, search_side}
use dgswemv.Adcirc.Boundary.Edges.{Consecutive, Neighbours}

-- The nodes `p` and `q` of the other side stand opposite `b` and `a`.
pub record IsOpposite (front back : List ℕ) (a b p q : ℕ) : Type 0 where
  pub i : ℕ
  pub j : ℕ
  pub i_lt : i < length front
  pub j_lt : j < length front
  pub at_a : get_or front i 0 ≡ a
  pub at_b : get_or front j 0 ≡ b
  pub adjacent : (j ≡ suc i) ⊎ (i ≡ suc j)
  pub back_b : get_or back j 0 ≡ p
  pub back_a : get_or back i 0 ≡ q

Consecutive-index :
    (a b : ℕ) (l : List ℕ)
    → Consecutive a b l
    → (i : ℕ) × (suc i < length l) × (get_or l i 0 ≡ a) × (get_or l (suc i) 0 ≡ b)
Consecutive-index a b [] c = absurd c
Consecutive-index a b (x ∷ []) c = absurd c
Consecutive-index a b (x ∷ y ∷ rest) (inl (e, f)) = (0, omega arith, e, f)
Consecutive-index a b (x ∷ y ∷ rest) (inr c) =
    let (i, lt, e, f) = Consecutive-index a b (y ∷ rest) c in (suc i, omega arith, e, f)

uint_sub_lem : (n k : ℕ) → k ≤ n → n < 2 ^ 32 → uint_sub n k ≡ n - k
uint_sub_lem n k h small = omega arith

found-IsOpposite :
    (front back : List ℕ) (a b p q i j : ℕ)
    → i < length front
    → j < length front
    → get_or front i 0 ≡ a
    → get_or front j 0 ≡ b
    → (j ≡ suc i) ⊎ (i ≡ suc j)
    → ◌≡◌ {A = Option (ℕ × ℕ)} (some (get_or back j 0, get_or back i 0)) (some (p, q))
    → IsOpposite front back a b p q
found-IsOpposite front back a b p q i j i_lt j_lt at_a at_b adjacent h = record {
  i = i;
  j = j;
  i_lt = i_lt;
  j_lt = j_lt;
  at_a = at_a;
  at_b = at_b;
  adjacent = adjacent;
  back_b = cc;
  back_a = cc;
}

search_inside_sound :
    (front back : List ℕ) (rounds node a b p q : ℕ)
    → 0 < node
    → node + rounds < length front
    → search_inside front back rounds node a b ≡ some (p, q)
    → IsOpposite front back a b p q
unfolding search_inside
search_inside_sound front back zero node a b p q pos lt h = cc
search_inside_sound front back (suc rounds) node a b p q pos lt h =
    elim (Bool-cases (get_or front node 0 == a)) [
      | inl at_a ↦ elim (Bool-cases (get_or front (suc node) 0 == b)) [
        | inl next ↦
            found-IsOpposite front back a b p q node (suc node) (omega arith) (omega arith)
              (ground arith) (ground arith) (inl refl) (ground arith)
        | inr not_next ↦ elim (Bool-cases (get_or front (node - 1) 0 == b)) [
          | inl before ↦
              found-IsOpposite front back a b p q node (node - 1) (omega arith) (omega arith)
                (ground arith) (ground arith) (inr (omega arith)) (ground arith)
          | inr not_before ↦
              search_inside_sound front back rounds (suc node) a b p q (omega arith) (omega arith)
                (ground arith)
        ]
      ]
      | inr other ↦
          search_inside_sound front back rounds (suc node) a b p q (omega arith) (omega arith)
            (ground arith)
    ]

search_inside_complete :
    (front back : List ℕ) (rounds node a b i : ℕ)
    → node ≤ i
    → i < node + rounds
    → get_or front i 0 ≡ a
    → (get_or front (suc i) 0 ≡ b) ⊎ (get_or front (i - 1) 0 ≡ b)
    → search_inside front back rounds node a b ≢ none
unfolding search_inside
search_inside_complete front back zero node a b i low high at_a near = absurd (omega arith)
search_inside_complete front back (suc rounds) node a b i low high at_a near =
    elim (ℕ_discrete node i) [
      | yes e ↦ ground arith
      | no ne ↦ ground (
        arith,
        search_inside_complete front back rounds (suc node) a b i (omega arith) (omega arith),
      )
    ]

pub search_side_sound :
    (front back : List ℕ) (a b p q : ℕ)
    → 1 < length front
    → length front < 2 ^ 32
    → search_side front back (length front) a b ≡ some (p, q)
    → IsOpposite front back a b p q
unfolding search_side
search_side_sound front back a b p q two small h =
    let one = uint_sub_lem (length front) 1 (omega arith) small in
    let second = uint_sub_lem (length front) 2 (omega arith) small in
    elim (Bool-cases (get_or front 0 0 == a && get_or front 1 0 == b)) [
      | inl e ↦
          found-IsOpposite front back a b p q 0 1 (omega arith) two (ground arith) (ground arith)
            (inl refl) (ground arith)
      | inr e ↦
          elim (Option-cases (search_inside front back (uint_sub (length front) 1 - 1) 1 a b)) [
            | inr (pair, found) ↦
                search_inside_sound front back (uint_sub (length front) 1 - 1) 1 a b p q
                  (omega arith) (omega arith) (ground arith)
            | inl missing ↦
                found-IsOpposite front back a b p q (length front - 1) (length front - 2)
                  (omega arith) (omega arith) (ground arith) (ground arith) (inr (omega arith))
                  (ground arith)
          ]
    ]

-- A barrier side on which the two nodes are neighbours is searched with success.
pub search_side_complete :
    (front back : List ℕ) (a b : ℕ)
    → length front < 2 ^ 32
    → Neighbours a b front
    → search_side front back (length front) a b ≢ none
unfolding search_side
search_side_complete front back a b small (inl c) =
    let (i, lt, at_a, at_b) = Consecutive-index a b front c in
    let one = uint_sub_lem (length front) 1 (omega arith) small in
    elim (ℕ_discrete i 0) [
      | yes e ↦ ground arith
      | no ne ↦ ground (
        arith,
        search_inside_complete front back (uint_sub (length front) 1 - 1) 1 a b i (omega arith)
            (omega arith) at_a (inl at_b),
      )
    ]
search_side_complete front back a b small (inr c) =
    let (i, lt, at_b, at_a) = Consecutive-index b a front c in
    let one = uint_sub_lem (length front) 1 (omega arith) small in
    let second = uint_sub_lem (length front) 2 (omega arith) small in
    let back_one : suc i - 1 ≡ i = omega arith in
    elim (ℕ_discrete (suc (suc i)) (length front)) [
      | yes e ↦ ground arith
      | no ne ↦ ground (
        arith,
        search_inside_complete front back (uint_sub (length front) 1 - 1) 1 a b (suc i)
            (omega arith) (omega arith) at_a (inr (rw back_one at_b)),
      )
    ]
