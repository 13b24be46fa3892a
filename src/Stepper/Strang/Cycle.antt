-- ===== src/Stepper/Strang/Cycle.antt =====
-- A whole splitting cycle of SecondStrangStepper
-- (source/simulation/stepper/second_strang_stepper.hpp).
use dgswemv.Prelude.{
  ℕ, zero, suc, ◌+◌, ◌<◌, ◌≡◌, ◌≢◌, refl, ap, ◌∙◌, Bool, true, false, arith, ◌==◌, inl, inr, ◌⊎◌,
  Bool-cases, some,
}
use dgswemv.Stepper.Strang.{
  Stepping, construct, Current, at_first, at_second, StrangStepper, current_stage, advance_current,
  switch, advance, updater,
}

-- `n` calls of `f`.
abbrev pub times_of {ℓ} : {S : Type ℓ} → (S → S) → ℕ → S → S
times_of f zero s = s
times_of f (suc n) s = f (times_of f n s)

-- From `s`, the stage comes back to 0 at the n-th increment and not before.
pub record IsCycle {S : Type 0} (stepping : Stepping S) (n : ℕ) (s : S) : Type 0 where
  pub positive : 0 < n
  pub inside : (k : ℕ) → 0 < k → k < n → stepping.stage (times_of stepping.advance k s) ≢ 0
  pub wraps : stepping.stage (times_of stepping.advance n s) ≡ 0

module _ {First Second : Type 0} (one : Stepping First) (two : Stepping Second) where
  abbrev state : First → Second → Bool → Bool → Current → StrangStepper First Second
  state f g d1 d2 c = record {
    first = f;
    second = g;
    done_first = d1;
    done_second = d2;
    current = c;
  }

  -- The three parts of a cycle: the first half step, the full step, the second half step.
  abbrev pub first_half : First → Second → StrangStepper First Second
  first_half f g = state f g false false at_first

  abbrev pub full_step : First → Second → StrangStepper First Second
  full_step f g = state f g true false at_second

  abbrev pub second_half : First → Second → StrangStepper First Second
  second_half f g = state f g true true at_first

  step_first :
      (f : First) (g : Second) (d1 d2 : Bool)
      → one.stage (one.advance f) ≢ 0
      → advance one two (state f g d1 d2 at_first) ≡ state (one.advance f) g d1 d2 at_first
  unfolding advance
  step_first f g d1 d2 h = ground arith

  step_second :
      (f : First) (g : Second) (d1 d2 : Bool)
      → two.stage (two.advance g) ≢ 0
      → advance one two (state f g d1 d2 at_second) ≡ state f (two.advance g) d1 d2 at_second
  unfolding advance
  step_second f g d1 d2 h = ground arith

  run_first :
      (f : First) (g : Second) (d1 d2 : Bool) (n k : ℕ)
      → IsCycle one n f
      → k < n
      → times_of (advance one two) k (state f g d1 d2 at_first)
        ≡ state (times_of one.advance k f) g d1 d2 at_first
  run_first f g d1 d2 n zero c lt = refl
  run_first f g d1 d2 n (suc k) c lt =
      ap (advance one two) (run_first f g d1 d2 n k c (omega arith))
      ∙ step_first (times_of one.advance k f) g d1 d2 (c.inside (suc k) (omega arith) lt)

  run_second :
      (f : First) (g : Second) (d1 d2 : Bool) (n k : ℕ)
      → IsCycle two n g
      → k < n
      → times_of (advance one two) k (state f g d1 d2 at_second)
        ≡ state f (times_of two.advance k g) d1 d2 at_second
  run_second f g d1 d2 n zero c lt = refl
  run_second f g d1 d2 n (suc k) c lt =
      ap (advance one two) (run_second f g d1 d2 n k c (omega arith))
      ∙ step_second f (times_of two.advance k g) d1 d2 (c.inside (suc k) (omega arith) lt)

  -- After the stages of the first half step the full step begins.
  finish_first_half :
      (f : First) (g : Second) (n : ℕ)
      → IsCycle one n f
      → times_of (advance one two) n (first_half f g) ≡ full_step (times_of one.advance n f) g
  unfolding advance
  finish_first_half f g zero c = absurd (omega (arith, c.positive))
  finish_first_half f g (suc n) c =
      ap (advance one two) (run_first f g false false (suc n) n c (omega arith))
      ∙ ground (arith, c.wraps)

  finish_full_step :
      (f : First) (g : Second) (n : ℕ)
      → IsCycle two n g
      → times_of (advance one two) n (full_step f g) ≡ second_half f (times_of two.advance n g)
  unfolding advance
  finish_full_step f g zero c = absurd (omega (arith, c.positive))
  finish_full_step f g (suc n) c =
      ap (advance one two) (run_second f g true false (suc n) n c (omega arith))
      ∙ ground (arith, c.wraps)

  finish_second_half :
      (f : First) (g : Second) (n : ℕ)
      → IsCycle one n f
      → times_of (advance one two) n (second_half f g) ≡ first_half (times_of one.advance n f) g
  unfolding advance
  finish_second_half f g zero c = absurd (omega (arith, c.positive))
  finish_second_half f g (suc n) c =
      ap (advance one two) (run_first f g true true (suc n) n c (omega arith))
      ∙ ground (arith, c.wraps)

  times_of-add :
      (m n : ℕ) (s : StrangStepper First Second)
      → times_of (advance one two) (m + n) s
        ≡ times_of (advance one two) m (times_of (advance one two) n s)
  times_of-add zero n s =
      ap (λ k. times_of (advance one two) k s) (let e : zero + n ≡ n = omega arith in e)
  times_of-add (suc m) n s =
      ap (λ k. times_of (advance one two) k s) (let e : suc m + n ≡ suc (m + n) = omega arith in e)
      ∙ ap (advance one two) (times_of-add m n s)

  -- If the first stepper has a cycle of `n` stages from where it stands and again after it, and the
  -- second has one of `m` stages, then after `n + m + n` increments the splitting is back at the
  -- start of its first half step, with the first stepper advanced twice `n` times and the second
  -- `m` times.
  pub strang_cycle :
      (f : First) (g : Second) (n m : ℕ)
      → IsCycle one n f
      → IsCycle one n (times_of one.advance n f)
      → IsCycle two m g
      → times_of (advance one two) (n + (m + n)) (first_half f g)
        ≡ first_half (times_of one.advance n (times_of one.advance n f)) (times_of two.advance m g)
  strang_cycle f g n m c c' e =
      times_of-add n (m + n) (first_half f g)
      ∙ ap (times_of (advance one two) n) (
          times_of-add m n (first_half f g)
          ∙ ap (times_of (advance one two) m) (finish_first_half f g n c)
          ∙ finish_full_step (times_of one.advance n f) g m e)
      ∙ finish_second_half (times_of one.advance n f) (times_of two.advance m g) n c'

  -- The flags and the pointer are in one of the three parts of a cycle.
  abbrev pub IsAligned : StrangStepper First Second → Type 0
  IsAligned s =
      (s.done_first ≡ false) × (s.done_second ≡ false) × (s.current ≡ at_first)
      ⊎ (s.done_first ≡ true) × (s.done_second ≡ false) × (s.current ≡ at_second)
      ⊎ (s.done_first ≡ true) × (s.done_second ≡ true) × (s.current ≡ at_first)

  advance_current-flags :
      (s : StrangStepper First Second)
      → ((advance_current one two s).done_first ≡ s.done_first)
        × ((advance_current one two s).done_second ≡ s.done_second)
        × ((advance_current one two s).current ≡ s.current)
  unfolding advance_current
  advance_current-flags s = ground arith

  switch-IsAligned : (s : StrangStepper First Second) → IsAligned s → IsAligned (switch one two s)
  unfolding switch
  switch-IsAligned s h = ground arith

  advance-cases :
      (s : StrangStepper First Second)
      → (advance one two s ≡ switch one two (advance_current one two s))
        ⊎ (advance one two s ≡ advance_current one two s)
  unfolding advance
  advance-cases s = elim (Bool-cases (current_stage one two (advance_current one two s) == 0)) [
    | inl e ↦ inl (rw e refl)
    | inr e ↦ inr (rw e refl)
  ]

  advance-IsAligned : (s : StrangStepper First Second) → IsAligned s → IsAligned (advance one two s)
  advance-IsAligned s h =
      let moved : IsAligned (advance_current one two s) = ground (arith, advance_current-flags s) in
      elim (advance-cases s) [
        | inl e ↦ rw e (switch-IsAligned (advance_current one two s) moved)
        | inr e ↦ rw e moved
      ]

  run-IsAligned :
      (s : StrangStepper First Second) (k : ℕ)
      → IsAligned s
      → IsAligned (times_of (advance one two) k s)
  run-IsAligned s zero h = h
  run-IsAligned s (suc k) h =
      advance-IsAligned (times_of (advance one two) k s) (run-IsAligned s k h)

  updater-eq_current :
      (s : StrangStepper First Second) → IsAligned s → updater one two s ≡ some s.current
  unfolding updater
  updater-eq_current s h = ground arith

  -- However often a new splitting is incremented, `UpdateState` calls one of the two steppers, and it
  -- is the one that `current` points to.
  pub updater-run :
      (halve : First → First) (f : First) (g : Second) (k : ℕ)
      → let s = times_of (advance one two) k (construct one two halve f g) in
        updater one two s ≡ some s.current
  unfolding construct
  updater-run halve f g k =
      updater-eq_current (times_of (advance one two) k (construct one two halve f g))
        (run-IsAligned (construct one two halve f g) k (inl (refl, refl, refl)))
