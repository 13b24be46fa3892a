-- ===== src/QuadMesh/Cover.antt =====
-- The loops of the element patterns (mesh_generators/quad_mesh_generator.cpp): which cells they have
-- written, and how those are cut.
use dgswemv.Prelude.{
  ℕ, zero, suc, ◌+◌, ◌*◌, ◌%◌, ◌^◌, ◌<◌, ◌≤◌, ◌≡◌, ◌⊎◌, inl, inr, refl, Bool, List, arith, ltb,
  for_range, for_range_rule, Bool-cases,
}
use native.Mathlib.Decide.{ℕ_discrete, dec_lt}
use dgswemv.QuadMesh.Pattern.{uint_small, Element, for_even}
use dgswemv.QuadMesh.Cells.{IsCut, IsSized, write, write-IsSized, write-keeps, write-IsCut}

-- An invariant of a loop with stride two holds at some counter at or past the end.
pub for_even_rule {ℓ κ} :
    {S : Type ℓ} (P : ℕ → S → Type κ) (body : ℕ → S → S) (fuel start stop : ℕ) (s : S)
    → stop ≤ start + fuel
    → stop + 1 < 2 ^ 32
    → ((i : ℕ) (s : S)
        → start ≤ i
        → i < stop
        → i % 2 ≡ start % 2
        → P i s
        → P (suc (suc i)) (body i s))
    → P start s
    → (j : ℕ) × (stop ≤ j) × P j (for_even fuel start stop body s)
unfolding for_even
for_even_rule P body zero start stop s enough room keep h = (start, omega arith, h)
for_even_rule P body (suc fuel) start stop s enough room keep h =
    elim (Bool-cases (ltb start stop)) [
      | inr past ↦ (start, ground arith, rw past h)
      | inl inside ↦
          rw (inside, uint_small (suc (suc start)) (ground arith))
            (for_even_rule P body fuel (suc (suc start)) stop (body start s) (omega arith) room
              (λ i u low high even p. keep i u (omega arith) high (omega arith) p)
              (keep start s (omega arith) (ground arith) refl h))
    ]

module _ (m n : ℕ) (cut : ℕ → ℕ → Bool) where
  -- The cells of the set `done` are cut as `cut` says.
  pub record Covered (done : ℕ → ℕ → Type 0) (elements : List Element) : Type 0 where
    pub sized : IsSized m n elements
    pub cells : (i j : ℕ) → i < m → j < n → done i j → IsCut m (cut i j) i j elements

  pub weaken :
      {done done' : ℕ → ℕ → Type 0} (elements : List Element)
      → ((i j : ℕ) → i < m → j < n → done' i j → done i j)
      → Covered done elements
      → Covered done' elements
  weaken elements f c = record {
    sized = c.sized;
    cells = λ i j h k d. c.cells i j h k (f i j h k d);
  }

module _ (m n : ℕ) (small : 2 * m * n < 2 ^ 32) (cut : ℕ → ℕ → Bool) where
  -- One write adds its cell.
  pub write-Covered :
      {done : ℕ → ℕ → Type 0} (i j : ℕ) (rising : Bool) (elements : List Element)
      → i < m
      → j < n
      → cut i j ≡ rising
      → Covered m n cut done elements
      → Covered m n cut (λ i' j'. done i' j' ⊎ (i' ≡ i) × (j' ≡ j)) (write m n rising j i elements)
  write-Covered {done} i j rising elements h k same c = record {
    sized = write-IsSized m n small rising i j elements h k c.sized;
    cells = λ i' j' h' k' d. at i' j' h' k' d (ℕ_discrete i' i) (ℕ_discrete j' j);
  }
    where
      here : IsCut m (cut i j) i j (write m n rising j i elements)
      here = rw same (write-IsCut m n small rising i j elements h k c.sized)

      at :
          (i' j' : ℕ)
          → i' < m
          → j' < n
          → done i' j' ⊎ (i' ≡ i) × (j' ≡ j)
          → Dec (i' ≡ i)
          → Dec (j' ≡ j)
          → IsCut m (cut i' j') i' j' (write m n rising j i elements)
      at i' j' h' k' d (yes p) (yes q) = rw (p, q) here
      at i' j' h' k' d (no p) q =
          write-keeps m n small rising (cut i' j') i j i' j' elements h k h'
            (λ e _. p (ground arith))
            (c.cells i' j' h' k' (elim d [ inl old ↦ old | inr new ↦ absurd (p new.0) ]))
      at i' j' h' k' d (yes p) (no q) =
          write-keeps m n small rising (cut i' j') i j i' j' elements h k h'
            (λ _ e. q (ground arith))
            (c.cells i' j' h' k' (elim d [ inl old ↦ old | inr new ↦ absurd (q new.1) ]))

  -- The loop over a whole row.
  pub row-Covered :
      {done : ℕ → ℕ → Type 0} (j : ℕ) (rising : Bool) (elements : List Element)
      → j < n
      → ((i : ℕ) → cut i j ≡ rising)
      → Covered m n cut done elements
      → Covered m n cut
          (λ i' j'. done i' j' ⊎ (j' ≡ j))
          (for_range m 0 (write m n rising j) elements)
  row-Covered {done} j rising elements k same c =
      weaken m n cut _ (λ i j' h _ d. elim d [ inl old ↦ inl old | inr e ↦ inr (h, e) ])
        (for_range_rule (λ i. Covered m n cut (λ i' j'. done i' j' ⊎ (i' < i) × (j' ≡ j)))
          (write m n rising j) m 0 m elements (omega arith)
          (λ i s _ high inv.
            weaken m n cut _
              (λ i' j' _ _ d. elim d [
                | inl old ↦ inl (inl old)
                | inr (lt, e) ↦ elim (dec_lt i' i) [
                  | yes p ↦ inl (inr (p, e))
                  | no p ↦ inr (omega arith, e)
                ]
              ])
              (write-Covered i j rising s high k (same i) inv))
          (weaken m n cut elements
            (λ i j' _ _ d. elim d [ inl old ↦ old | inr none_yet ↦ absurd (omega arith) ]) c))

  -- The loop over every other cell of a row.
  pub half_row-Covered :
      {done : ℕ → ℕ → Type 0} (j start : ℕ) (rising : Bool) (elements : List Element)
      → j < n
      → m + 1 < 2 ^ 32
      → start < 2
      → ((i : ℕ) → i % 2 ≡ start → cut i j ≡ rising)
      → Covered m n cut done elements
      → Covered m n cut
          (λ i' j'. done i' j' ⊎ (j' ≡ j) × (i' % 2 ≡ start))
          (for_even m start m (write m n rising j) elements)
  half_row-Covered {done} j start rising elements k wide low_start same c =
      let (stop, past, inv) =
        for_even_rule
          (λ i. Covered m n cut (λ i' j'. done i' j' ⊎ (i' < i) × (j' ≡ j) × (i' % 2 ≡ start)))
          (write m n rising j) m start m elements (omega arith) wide
          (λ i s low high even inv.
            weaken m n cut _
              (λ i' j' _ _ d. elim d [
                | inl old ↦ inl (inl old)
                | inr (lt, e, p) ↦ elim (dec_lt i' i) [
                  | yes q ↦ inl (inr (q, e, p))
                  | no q ↦ inr (omega arith, e)
                ]
              ])
              (write-Covered i j rising s high k (same i (omega arith)) inv))
          (weaken m n cut elements
            (λ i j' _ _ d. elim d [ inl old ↦ old | inr none_yet ↦ absurd (omega arith) ]) c) in
      weaken m n cut _
        (λ i j' h _ d. elim d [ inl old ↦ inl old | inr (e, p) ↦ inr (omega arith, e, p) ]) inv
