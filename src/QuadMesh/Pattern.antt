-- ===== src/QuadMesh/Pattern.antt =====
-- The element patterns of mesh_generators/quad_mesh_generator.cpp: `simple_pattern_tri`,
-- `zigzag_pattern_tri` and `checker_pattern_tri`. Arithmetic is that of `uint`: an expression of sums
-- and products is taken modulo 2 ^ 32 as a whole, which is what wrapping at each operation gives.
use native.Mathlib.Nat.{mod-eq_of_lt}
use dgswemv.Prelude.{
  ℕ, zero, suc, ◌+◌, ◌*◌, ◌%◌, ◌^◌, ◌<◌, ◌≡◌, List, [], ◌∷◌, ltb, if◌then◌else◌, set, replicate,
  for_range,
}

-- The value of an expression of `uint`.
unfoldable pub uint : ℕ → ℕ
uint n = n % 2 ^ 32

pub uint_small : (n : ℕ) → n < 2 ^ 32 → uint n ≡ n
unfolding uint
uint_small n h = mod-eq_of_lt h

pub record Element : Type 0 where
  pub id : ℕ
  pub kind : ℕ
  pub nodes : List ℕ

abbrev pub element : ℕ → List ℕ → Element
element id nodes = record { id = id; kind = 3; nodes = nodes }

abbrev pub blank_element : Element
blank_element = record { id = 0; kind = 0; nodes = [] }

-- `for (uint i = start; i < stop; i += 2)`, with fuel for its rounds, which `stop` rounds of fuel are
-- if the counter does not wrap. For `stop` = 2 ^ 32 - 1 it can wrap, and the loop then has no end.
unfoldable pub for_even {ℓ} : {S : Type ℓ} → ℕ → ℕ → ℕ → (ℕ → S → S) → S → S
for_even zero start stop body s = s
for_even (suc fuel) start stop body s =
    let rest = for_even fuel (uint (suc (suc start))) stop body (body start s) in
    if ltb start stop then rest else s

-- `elements[2 * i + 2 * m * j] = …; elements[2 * i + 2 * m * j + 1] = …`
unfoldable pub write_cell : ℕ → ℕ → ℕ → List ℕ → List ℕ → List Element → List Element
write_cell m i j nodes nodes' elements =
    let slot = uint (2 * i + 2 * m * j) in
    let slot' = uint (2 * i + 2 * m * j + 1) in
    set (set elements slot (element slot nodes)) slot' (element slot' nodes')

-- The cell is cut along the diagonal from its lower left corner.
unfoldable pub write_rising : ℕ → ℕ → ℕ → List Element → List Element
write_rising m j i =
    write_cell m i j
      (uint (i + (m + 1) * j)
        ∷ uint (i + m + 2 + (m + 1) * j)
        ∷ uint (i + m + 1 + (m + 1) * j)
        ∷ [])
      (uint (i + (m + 1) * j) ∷ uint (i + 1 + (m + 1) * j) ∷ uint (i + m + 2 + (m + 1) * j) ∷ [])

-- The cell is cut along the diagonal from its lower right corner.
unfoldable pub write_falling : ℕ → ℕ → ℕ → List Element → List Element
write_falling m j i =
    write_cell m i j
      (uint (i + (m + 1) * j) ∷ uint (i + 1 + (m + 1) * j) ∷ uint (i + m + 1 + (m + 1) * j) ∷ [])
      (uint (i + 1 + (m + 1) * j)
        ∷ uint (i + m + 2 + (m + 1) * j)
        ∷ uint (i + m + 1 + (m + 1) * j)
        ∷ [])

unfoldable pub simple_pattern_tri : ℕ → ℕ → List Element → List Element
simple_pattern_tri m n = for_range n 0 λ j. for_range m 0 (write_rising m j)

unfoldable pub zigzag_pattern_tri : ℕ → ℕ → List Element → List Element
zigzag_pattern_tri m n elements =
    for_even n 1 n (λ j. for_range m 0 (write_falling m j))
      (for_even n 0 n (λ j. for_range m 0 (write_rising m j)) elements)

unfoldable pub checker_pattern_tri : ℕ → ℕ → List Element → List Element
checker_pattern_tri m n elements =
    for_range n 0 (λ j. for_even m ((j + 1) % 2) m (write_falling m j))
      (for_range n 0 (λ j. for_even m (j % 2) m (write_rising m j)) elements)

pub data Pattern : Type 0 where
  simple zigzag checker : Pattern

-- `std::vector<Element> elements(2 * m * n)` and the switch over the pattern.
unfoldable pub elements_of : Pattern → ℕ → ℕ → List Element
elements_of simple m n = simple_pattern_tri m n (replicate (uint (2 * m * n)) blank_element)
elements_of zigzag m n = zigzag_pattern_tri m n (replicate (uint (2 * m * n)) blank_element)
elements_of checker m n = checker_pattern_tri m n (replicate (uint (2 * m * n)) blank_element)
