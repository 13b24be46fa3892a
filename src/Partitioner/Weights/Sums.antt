-- ===== src/Partitioner/Weights/Sums.antt =====
-- The weights of the partitions, summed over their elements, and the parts that METIS gives
-- (partitioner/partition.cpp and partitioner/csrmat.hpp).
use dgswemv.Prelude.{
  ℕ, ◌<◌, ◌≡◌, ◌≢◌, ◌⊎◌, refl, ap, subst, ◌∙◌, sym, inl, inr, Bool, true, false, ◌||◌, ◌==◌, Option,
  none, some, List, [], ◌∷◌, All, length, replicate, arith, bind-eq-some, Bool-cases,
}
use dgswemv.Double.{Double}
use dgswemv.Adcirc.Boundary.{find_key}
use dgswemv.Metadata.{put_key}
use dgswemv.Partitioner.Csr.{CsrMat, contains, node_ids, adj, node_wgts}
use dgswemv.Partitioner.Weights.{Metis, metis_part, submesh_weights, add_vectors}
use dgswemv.Partitioner.Csr.Order.{AllBelow, IsOnce, zeros_below}

-- METIS documents its parts to be numbered from 0 to below their number.
abbrev pub IsInRange : {D : Type 0} → Metis D → Type 0
IsInRange {D} metis =
    (xs ys ws es : List ℕ) (ncon nparts : ℕ) (imbalance : D)
    → 0 < nparts
    → All (λ v. v < nparts) (metis.kway xs ys ws es ncon nparts imbalance)

node_ids-put_key :
    {A : Type 0}
    → (d : List (ℕ × List A)) (key : ℕ) (v : List A) → node_ids (put_key d key v) ≡ node_ids d
unfolding node_ids put_key
node_ids-put_key [] key v = refl
node_ids-put_key ((k, u) ∷ rest) key v = elim (Bool-cases (k == key)) [
  | inl e ↦ rw e
  | inr e ↦ rw e (ap (λ l. k ∷ l) (node_ids-put_key rest key v))
]

node_ids-absent :
    {A : Type 0}
    → (d : List (ℕ × List A)) (key : ℕ) → find_key d key ≡ none
    → contains (node_ids d) key ≡ false
unfolding node_ids find_key contains
node_ids-absent [] key h = refl
node_ids-absent ((k, u) ∷ rest) key h = ground (arith, node_ids-absent rest key)

node_ids-present :
    {A : Type 0}
    → (d : List (ℕ × List A)) (key : ℕ) → find_key d key ≢ none
    → contains (node_ids d) key ≡ true
unfolding node_ids find_key contains
node_ids-present [] key h = absurd (h refl)
node_ids-present ((k, u) ∷ rest) key h = ground (arith, node_ids-present rest key)

module _ {D : Type 0} ⦃double : Double D⦄ where
  -- The sums after one more element of partition `p`.
  abbrev summed : List (ℕ × List D) → ℕ → List D → List (ℕ × List D)
  summed sums p ws = elim (find_key sums p) [
    | none ↦ (p, ws) ∷ sums
    | some old ↦ put_key sums p (add_vectors old ws)
  ]

  -- The partitions of the sums stand once, and are in range.
  abbrev pub IsGraded : ℕ → List (ℕ × List D) → Type 0
  IsGraded n sums = IsOnce (node_ids sums) × AllBelow n (node_ids sums)

  -- A partition is entered once: in front if it is new, else where it stands.
  node_ids-summed :
      (sums : List (ℕ × List D)) (p : ℕ) (ws : List D)
      → (node_ids (summed sums p ws) ≡ p ∷ node_ids sums) × (contains (node_ids sums) p ≡ false)
        ⊎ (node_ids (summed sums p ws) ≡ node_ids sums) × (contains (node_ids sums) p ≡ true)
  unfolding node_ids
  node_ids-summed sums p ws = at (find_key sums p) refl
    where
      at :
          (o : Option (List D))
          → find_key sums p ≡ o
          → (node_ids (elim o [
            | none ↦ (p, ws) ∷ sums
            | some old ↦ put_key sums p (add_vectors old ws)
          ])
                ≡ p ∷ node_ids sums)
              × (contains (node_ids sums) p ≡ false)
            ⊎ (node_ids (elim o [
              | none ↦ (p, ws) ∷ sums
              | some old ↦ put_key sums p (add_vectors old ws)
            ])
                ≡ node_ids sums)
              × (contains (node_ids sums) p ≡ true)
      at none h = inl (refl, node_ids-absent sums p h)
      at (some old) h = inr (
        node_ids-put_key sums p (add_vectors old ws),
        node_ids-present sums p (λ q. let bad : some old ≡ none = sym h ∙ q in cc),
      )

  summed-IsGraded :
      (n : ℕ) (sums : List (ℕ × List D)) (p : ℕ) (ws : List D)
      → p < n
      → IsGraded n sums
      → IsGraded n (summed sums p ws)
  summed-IsGraded n sums p ws low (once, all) = elim (node_ids-summed sums p ws) [
    | inl (e, new) ↦ subst (λ l. IsOnce l × AllBelow n l) (sym e) ((new, once), (low, all))
    | inr (e, old) ↦ subst (λ l. IsOnce l × AllBelow n l) (sym e) (once, all)
  ]

  summed-contains :
      (sums : List (ℕ × List D)) (p q : ℕ) (ws : List D)
      → contains (node_ids (summed sums p ws)) q ≡ (p == q || contains (node_ids sums) q)
  unfolding contains
  summed-contains sums p q ws = elim (node_ids-summed sums p ws) [
    | inl (e, new) ↦ ap (λ l. contains l q) e
    | inr (e, old) ↦ ap (λ l. contains l q) e ∙ elim (Bool-cases (p == q)) [
      | inl h ↦ let same : q ≡ p = ground arith in ap (contains (node_ids sums)) same ∙ old ∙ rw h
      | inr h ↦ rw h
    ]
  ]

  pub submesh_weights-IsGraded :
      (n : ℕ) (m : List (ℕ × ℕ)) (weights sums result : List (ℕ × List D))
      → ((e p : ℕ) → find_key m e ≡ some p → p < n)
      → submesh_weights m sums weights ≡ some result
      → IsGraded n sums
      → IsGraded n result
  unfolding submesh_weights
  submesh_weights-IsGraded n m [] sums result low h graded =
      let same : sums ≡ result = cc in subst (IsGraded n) same graded
  submesh_weights-IsGraded n m ((id, ws) ∷ rest) sums result low h graded =
      let (p, at, h1) = bind-eq-some (find_key m id) _ h in
      submesh_weights-IsGraded n m rest (summed sums p ws) result low h1
        (summed-IsGraded n sums p ws (low id p at) graded)

  submesh_weights-keeps :
      (m : List (ℕ × ℕ)) (weights sums result : List (ℕ × List D)) (q : ℕ)
      → submesh_weights m sums weights ≡ some result
      → contains (node_ids sums) q ≡ true
      → contains (node_ids result) q ≡ true
  unfolding submesh_weights
  submesh_weights-keeps m [] sums result q h there =
      let same : sums ≡ result = cc in ap (λ s. contains (node_ids s) q) (sym same) ∙ there
  submesh_weights-keeps m ((id, ws) ∷ rest) sums result q h there =
      let (p, at, h1) = bind-eq-some (find_key m id) _ h in
      submesh_weights-keeps m rest (summed sums p ws) result q h1
        (summed-contains sums p q ws ∙ rw there (or_true (p == q)))
    where
      or_true : (b : Bool) → (b || true) ≡ true
      or_true true = refl
      or_true false = refl

  pub submesh_weights-enters :
      (m : List (ℕ × ℕ)) (weights sums result : List (ℕ × List D)) (e p : ℕ)
      → submesh_weights m sums weights ≡ some result
      → find_key weights e ≢ none
      → find_key m e ≡ some p
      → contains (node_ids result) p ≡ true
  unfolding submesh_weights find_key
  submesh_weights-enters m [] sums result e p h weighted at = absurd (weighted refl)
  submesh_weights-enters m ((id, ws) ∷ rest) sums result e p h weighted at =
      let (q, at', h1) = bind-eq-some (find_key m id) _ h in
      elim (Bool-cases (id == e)) [
        | inl same ↦
            let one : id ≡ e = ground arith in
            let two : some q ≡ some p = sym at' ∙ ap (find_key m) one ∙ at in
            let three : (q == p) ≡ true = ground arith in
            submesh_weights-keeps m rest (summed sums q ws) result p h1
              (summed-contains sums q p ws ∙ rw three refl)
        | inr other ↦
            submesh_weights-enters m rest (summed sums q ws) result e p h1
              (λ absent. weighted (rw (other, find_key) absent)) at
      ]

  pub metis_part_below :
      (metis : Metis D) (g : CsrMat D) (n : ℕ) (imbalance : D) (part : List ℕ)
      → IsInRange metis
      → 0 < n
      → metis_part metis g n imbalance ≡ some part
      → AllBelow n part
  unfolding metis_part
  metis_part_below metis g n imbalance part range pos h =
      elim (Bool-cases (n == 1 || length g.nodes == 1)) [
        | inl e ↦
            let same : some (replicate (length g.nodes) 0) ≡ some part = rw (e, metis_part) at h in
            let same' : replicate (length g.nodes) 0 ≡ part = cc in
            subst (AllBelow n) same' (zeros_below n (length g.nodes) pos)
        | inr e ↦ elim (Bool-cases (length g.nodes == 0)) [
          | inl e' ↦
              let same : some [] ≡ some part = rw (e, e', metis_part) at h in
              let same' : [] ≡ part = cc in subst (AllBelow n) same' tt
          | inr e' ↦
              let (xs, _, h1) = bind-eq-some (adj g) _ (rw (e, e', metis_part) at h) in
              let (ws, _, h2) = bind-eq-some (node_wgts g) _ h1 in
              let same = some_eq _ part h2 in subst (AllBelow n) same (range _ _ _ _ _ _ _ pos)
        ]
      ]
    where
      some_eq : (u v : List ℕ) → some u ≡ some v → u ≡ v
      some_eq u v q = cc
