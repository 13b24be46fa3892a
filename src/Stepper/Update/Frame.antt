-- ===== src/Stepper/Update/Frame.antt =====
-- What ESSPRKStepper::UpdateState writes and what it leaves alone
-- (source/simulation/stepper/explicit_ssp_rk_stepper.hpp).
use dgswemv.Prelude.{
  ℕ, suc, ◌<◌, ◌≡◌, ◌≢◌, true, sym, ap, ◌∙◌, some, inl, inr, List, ◌==◌, arith, get_elem?,
  get_elem?-set-some, get_elem?-set_ne, for_range_rule, Option-cases, Bool-cases,
}
use dgswemv.Double.{Double}
use dgswemv.Stepper.Explicit.{EssprkStepper}
use dgswemv.Stepper.Update.{
  Vectors, StageState, set_q, contribution, accumulate, swap_q, clear, sum_stages, update_state,
  combination,
}

module _ {D V : Type 0} ⦃d : Double D⦄ (v : Vectors D V) where
  open v use {zeros}

  get-set_q_self :
      (states : List (StageState V)) (i : ℕ) (q' : V) (st : StageState V)
      → get_elem? states i ≡ some st
      → get_elem? (set_q v states i q') i ≡ some (record st { q = q' })
  unfolding set_q
  get-set_q_self states i q' st h =
      ground (arith, get_elem?-set-some states i (record st { q = q' }) st h)

  get-set_q_ne :
      (states : List (StageState V)) (i j : ℕ) (q' : V)
      → i ≢ j
      → get_elem? (set_q v states i q') j ≡ get_elem? states j
  unfolding set_q
  get-set_q_ne states i j q' h = elim (Option-cases (get_elem? states i)) [
    | inl e ↦ ground arith
    | inr (st, e) ↦ ground (arith, get_elem?-set_ne states i j (record st { q = q' }) h)
  ]

  -- What the loop has done after the rounds below `s`.
  pub record IsSummed (stepper : EssprkStepper D) (states : List (StageState V))
      (last : StageState V) (s : ℕ) (now : List (StageState V)) : Type 0 where
    pub others : (j : ℕ) → suc stepper.stage ≢ j → get_elem? now j ≡ get_elem? states j
    pub target :
        get_elem? now (suc stepper.stage)
        ≡ some (record last { q = combination v stepper states s (zeros last.q) })

  accumulate-IsSummed :
      (stepper : EssprkStepper D) (states now : List (StageState V)) (last : StageState V) (s : ℕ)
      → s < suc stepper.stage
      → IsSummed stepper states last s now
      → IsSummed stepper states last (suc s) (accumulate v stepper s now)
  unfolding accumulate combination
  accumulate-IsSummed stepper states now last s h inv = elim (Option-cases (get_elem? states s)) [
    | inl e ↦ ground (arith, inv.others s)
    | inr (st, e) ↦
        let q' = contribution v stepper s (combination v stepper states s (zeros last.q)) st in
        ground (
          arith,
          inv.others s,
          get-set_q_self now (suc stepper.stage) q'
              (record last { q = combination v stepper states s (zeros last.q) }),
          λ (j : ℕ). get-set_q_ne now (suc stepper.stage) j q',
        )
  ]

  clear-IsSummed :
      (stepper : EssprkStepper D) (states : List (StageState V)) (last : StageState V)
      → get_elem? states (suc stepper.stage) ≡ some last
      → IsSummed stepper states last 0 (clear v (suc stepper.stage) states)
  unfolding clear combination
  clear-IsSummed stepper states last h = ground (
    arith,
    get-set_q_self states (suc stepper.stage) (zeros last.q) last h,
    λ (j : ℕ). get-set_q_ne states (suc stepper.stage) j (zeros last.q),
  )

  sum_stages-IsSummed :
      (stepper : EssprkStepper D) (states : List (StageState V)) (last : StageState V)
      → get_elem? states (suc stepper.stage) ≡ some last
      → IsSummed stepper states last (suc stepper.stage) (sum_stages v stepper states)
  unfolding sum_stages
  sum_stages-IsSummed stepper states last h =
      for_range_rule (IsSummed stepper states last) (accumulate v stepper) (suc stepper.stage) 0
        (suc stepper.stage) (clear v (suc stepper.stage) states) (omega arith)
        (λ s now _ high inv. accumulate-IsSummed stepper states now last s high inv)
        (clear-IsSummed stepper states last h)

  -- Before the last stage, `update_state` stores the stage's combination of the states below in
  -- the next state, and changes nothing else.
  pub update_state-IsSummed :
      (stepper : EssprkStepper D) (states : List (StageState V)) (next : StageState V)
      → get_elem? states (suc stepper.stage) ≡ some next
      → suc stepper.stage ≢ stepper.nstages
      → IsSummed stepper states next (suc stepper.stage) (update_state v stepper states)
  unfolding update_state
  update_state-IsSummed stepper states next h different =
      elim (Bool-cases (suc stepper.stage == stepper.nstages)) [
        | inl e ↦ absurd (different (ground arith))
        | inr e ↦ rw e (sum_stages-IsSummed stepper states next h)
      ]

  swap_q_lem :
      (states : List (StageState V)) (i j : ℕ) (a b : StageState V)
      → i ≢ j
      → get_elem? states i ≡ some a
      → get_elem? states j ≡ some b
      → (get_elem? (swap_q v i j states) i ≡ some (record a { q = b.q }))
        × (get_elem? (swap_q v i j states) j ≡ some (record b { q = a.q }))
        × ((k : ℕ) → i ≢ k → j ≢ k → get_elem? (swap_q v i j states) k ≡ get_elem? states k)
  unfolding swap_q
  swap_q_lem states i j a b different ha hb =
      let states' = set_q v states i b.q in
      let hb' = get-set_q_ne states i j b.q different ∙ hb in
      let same = get-set_q_self states' j a.q b hb' in
      let first = get-set_q_ne states' j i a.q (λ e. different (sym e)) in
      let before = get-set_q_self states i b.q a ha in
      rw (ha, swap_q)
        (rw (hb, swap_q)
          (
            first ∙ before,
            same,
            λ k ik jk. get-set_q_ne states' j k a.q jk ∙ get-set_q_ne states i k b.q ik,
          ))

  update_state-eq-swap_q :
      (stepper : EssprkStepper D) (states : List (StageState V))
      → suc stepper.stage ≡ stepper.nstages
      → update_state v stepper states ≡ swap_q v 0 (suc stepper.stage) (sum_stages v stepper states)
  unfolding update_state
  update_state-eq-swap_q stepper states last =
      let here : (suc stepper.stage == stepper.nstages) ≡ true = ground arith in
      rw here (ap (λ n. swap_q v 0 n (sum_stages v stepper states)) (sym last))

  -- At the last stage, `update_state` stores the stage's combination in the first state, moves the
  -- old first coefficients to the last one, and changes nothing else.
  pub update_state-last :
      (stepper : EssprkStepper D) (states : List (StageState V)) (first next : StageState V)
      → get_elem? states 0 ≡ some first
      → get_elem? states (suc stepper.stage) ≡ some next
      → suc stepper.stage ≡ stepper.nstages
      → let result = update_state v stepper states in
        let q' = combination v stepper states (suc stepper.stage) (zeros next.q) in
        (get_elem? result 0 ≡ some (record first { q = q' }))
        × (get_elem? result (suc stepper.stage) ≡ some (record next { q = first.q }))
        × ((k : ℕ) → 0 ≢ k → suc stepper.stage ≢ k → get_elem? result k ≡ get_elem? states k)
  update_state-last stepper states first next h0 hn last =
      let inv = sum_stages-IsSummed stepper states next hn in
      let (to_first, to_last, rest) =
        swap_q_lem (sum_stages v stepper states) 0 (suc stepper.stage) first _ (omega arith)
          (inv.others 0 (omega arith) ∙ h0) inv.target in
      rw (update_state-eq-swap_q stepper states last)
        (to_first, to_last, λ k k0 kn. rest k k0 kn ∙ inv.others k kn)
