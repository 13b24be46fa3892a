-- ===== src/QuadMesh/Patterns.antt =====
-- What the three element patterns produce (mesh_generators/quad_mesh_generator.cpp).
use native.Mathlib.Decide.{dec_lt, ℕ_discrete}
use dgswemv.Prelude.{
  ℕ, zero, suc, ◌∙◌, ◌+◌, ◌*◌, ◌%◌, ◌^◌, ◌<◌, ◌≡◌, ◌⊎◌, inl, inr, refl, Bool, true, false, List,
  arith, ◌==◌, length-replicate, replicate, for_range, for_range_rule,
}
use dgswemv.QuadMesh.Pattern.{
  uint, uint_small, Pattern, simple, zigzag, checker, Element, blank_element, for_even,
  simple_pattern_tri, zigzag_pattern_tri, checker_pattern_tri, elements_of,
}
use dgswemv.QuadMesh.Cells.{IsCut, write}
use dgswemv.QuadMesh.Cover.{for_even_rule, Covered, weaken, row-Covered, half_row-Covered}

-- Whether the pattern cuts cell (i, j) along the diagonal from its lower left corner.
unfoldable pub rises : Pattern → ℕ → ℕ → Bool
rises simple i j = true
rises zigzag i j = j % 2 == 0
rises checker i j = i % 2 == j % 2

before_or_at : (a b : ℕ) → a < suc b → (a < b) ⊎ (a ≡ b)
before_or_at a b h = elim (dec_lt a b) [ yes p ↦ inl p | no p ↦ inr (omega arith) ]

module _ (m n : ℕ) (small : 2 * m * n < 2 ^ 32) (wide : m + 1 < 2 ^ 32)
    (tall : n + 1 < 2 ^ 32) where
  abbrev blank : List Element
  blank = replicate (uint (2 * m * n)) blank_element

  blank-Covered : (cut : ℕ → ℕ → Bool) → Covered m n cut (λ i j. ⊥) blank
  blank-Covered cut = record {
    sized = length-replicate (uint (2 * m * n)) blank_element ∙ uint_small (2 * m * n) small;
    cells = λ i j h k d. absurd d;
  }

  simple-Covered : Covered m n (rises simple) (λ i j. Unit {0}) (elements_of simple m n)
  unfolding elements_of simple_pattern_tri rises
  simple-Covered =
      weaken m n (rises simple) _ (λ i j h k d. k)
        (for_range_rule (λ j. Covered m n (rises simple) (λ i' j'. j' < j))
          (λ j. for_range m 0 (write m n true j)) n 0 n blank (omega arith)
          (λ j s _ high inv.
            weaken m n (rises simple) _ (λ i j' _ _ d. before_or_at j' j d)
              (row-Covered m n small (rises simple) j true s high (λ _. refl) inv))
          (weaken m n (rises simple) _ (λ i j h k d. elim d [ ]) (blank-Covered (rises simple))))

  zigzag-even :
      Covered m n
        (rises zigzag)
        (λ i j. j % 2 ≡ 0)
        (for_even n 0 n (λ j. for_range m 0 (write m n true j)) blank)
  unfolding rises
  zigzag-even =
      let (stop, past, inv) =
        for_even_rule (λ j. Covered m n (rises zigzag) (λ i' j'. (j' < j) × (j' % 2 ≡ 0)))
          (λ j. for_range m 0 (write m n true j)) n 0 n blank (omega arith) tall
          (λ j s _ high even inv.
            weaken m n (rises zigzag) _
              (λ i j' _ _ d. elim (dec_lt j' j) [ yes p ↦ inl (p, d.1) | no p ↦ inr (omega arith) ])
              (row-Covered m n small (rises zigzag) j true s high (λ _. ground arith) inv))
          (weaken m n (rises zigzag) _ (λ i j h k d. elim d.0 [ ])
            (blank-Covered (rises zigzag))) in
      weaken m n (rises zigzag) _ (λ i j h k d. (omega arith, d)) inv

  zigzag-Covered : Covered m n (rises zigzag) (λ i j. Unit {0}) (elements_of zigzag m n)
  unfolding elements_of zigzag_pattern_tri rises
  zigzag-Covered =
      let (stop, past, inv) =
        for_even_rule
          (λ j. Covered m n (rises zigzag) (λ i' j'. (j' % 2 ≡ 0) ⊎ (j' < j) × (j' % 2 ≡ 1)))
          (λ j. for_range m 0 (write m n false j)) n 1 n _ (omega arith) tall
          (λ j s _ high odd inv.
            weaken m n (rises zigzag) _
              (λ i j' _ _ d. elim d [
                | inl old ↦ inl (inl old)
                | inr (lt, p) ↦ elim (dec_lt j' j) [
                  | yes q ↦ inl (inr (q, p))
                  | no q ↦ inr (omega arith)
                ]
              ])
              (row-Covered m n small (rises zigzag) j false s high (λ _. ground arith) inv))
          (weaken m n (rises zigzag) _
            (λ i j h k d. elim d [ inl old ↦ old | inr (lt, p) ↦ absurd (omega arith) ])
            zigzag-even) in
      weaken m n (rises zigzag) _
        (λ i j h k d. elim (ℕ_discrete (j % 2) 0) [
          | yes p ↦ inl p
          | no p ↦ inr (omega arith, omega arith)
        ])
        inv

  checker-first :
      Covered m n
        (rises checker)
        (λ i j. i % 2 ≡ j % 2)
        (for_range n 0 (λ j. for_even m (j % 2) m (write m n true j)) blank)
  unfolding rises
  checker-first =
      weaken m n (rises checker) _ (λ i j h k d. (k, d))
        (for_range_rule (λ j. Covered m n (rises checker) (λ i' j'. (j' < j) × (i' % 2 ≡ j' % 2)))
          (λ j. for_even m (j % 2) m (write m n true j)) n 0 n blank (omega arith)
          (λ j s _ high inv.
            weaken m n (rises checker) _
              (λ i j' _ _ d. elim (before_or_at j' j d.0) [
                | inl p ↦ inl (p, d.1)
                | inr e ↦ inr (e, rw (← e) d.1)
              ])
              (half_row-Covered m n small (rises checker) j (j % 2) true s high wide (omega arith)
                (λ i e. ground arith) inv))
          (weaken m n (rises checker) _ (λ i j h k d. elim d.0 [ ])
            (blank-Covered (rises checker))))

  checker-Covered : Covered m n (rises checker) (λ i j. Unit {0}) (elements_of checker m n)
  unfolding elements_of checker_pattern_tri rises
  checker-Covered =
      weaken m n (rises checker) _
        (λ i j h k d. elim (ℕ_discrete (i % 2) (j % 2)) [
          | yes p ↦ inl p
          | no p ↦ inr (k, omega arith)
        ])
        (for_range_rule
          (λ j.
            Covered m n (rises checker)
              (λ i' j'. (i' % 2 ≡ j' % 2) ⊎ (j' < j) × (i' % 2 ≡ (j' + 1) % 2)))
          (λ j. for_even m ((j + 1) % 2) m (write m n false j)) n 0 n _ (omega arith)
          (λ j s _ high inv.
            weaken m n (rises checker) _
              (λ i j' _ _ d. elim d [
                | inl old ↦ inl (inl old)
                | inr (lt, p) ↦ elim (before_or_at j' j lt) [
                  | inl q ↦ inl (inr (q, p))
                  | inr e ↦ inr (e, rw (← e) p)
                ]
              ])
              (half_row-Covered m n small (rises checker) j ((j + 1) % 2) false s high wide
                (omega arith) (λ i e. ground arith) inv))
          (weaken m n (rises checker) _
            (λ i j h k d. elim d [ inl old ↦ old | inr (none_yet, p) ↦ elim none_yet [ ] ])
            checker-first))

-- Both sides of a grid with a cell are far below the greatest `uint`.
sides_bound : (m n : ℕ) → 0 < m → 0 < n → 2 * m * n < 2 ^ 32 → (m + 1 < 2 ^ 32) × (n + 1 < 2 ^ 32)
sides_bound zero n h k small = absurd (omega arith)
sides_bound (suc a) zero h k small = absurd (omega arith)
sides_bound (suc a) (suc b) h k small = (omega arith, omega arith)

-- For every pattern and every cell (i, j) of an m by n grid with less than 2 ^ 32 elements, the two
-- slots of the cell hold its two triangles, cut along the diagonal that the pattern has there.
pub elements_of-IsCut :
    (pattern' : Pattern) (m n i j : ℕ)
    → 2 * m * n < 2 ^ 32
    → i < m
    → j < n
    → IsCut m (rises pattern' i j) i j (elements_of pattern' m n)
elements_of-IsCut pattern' m n i j small h k =
    let (wide, tall) = sides_bound m n (omega arith) (omega arith) small in
    (covered pattern' wide tall).cells i j h k tt
  where
    covered :
        (pattern' : Pattern)
        → m + 1 < 2 ^ 32
        → n + 1 < 2 ^ 32
        → Covered m n (rises pattern') (λ i j. Unit {0}) (elements_of pattern' m n)
    covered simple wide tall = simple-Covered m n small wide tall
    covered zigzag wide tall = zigzag-Covered m n small wide tall
    covered checker wide tall = checker-Covered m n small wide tall
