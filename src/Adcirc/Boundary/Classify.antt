-- ===== src/Adcirc/Boundary/Classify.antt =====
-- What `get_ibtype` answers (source/preprocessor/ADCIRC_reader/adcirc_format.cpp).
use dgswemv.Prelude.{
  ℕ, zero, suc, ◌+◌, ◌%◌, ◌≤◌, ◌<◌, ◌≡◌, ◌≢◌, ◌⊎◌, inl, inr, refl, ◌==◌, none, some, List, [], ◌∷◌,
  arith, get_or, Bool-cases, Option-cases,
}
use dgswemv.BoundaryTypes.{levee}
use dgswemv.Adcirc.{Boundaries}
use dgswemv.Adcirc.Boundary.{
  has_edge, some_has_edge, find_key, Verdict, is, pass, fail, segment_verdict, segments_verdict,
  get_ibtype, get_internal_node_pair,
}
use dgswemv.Adcirc.Boundary.Edges.{Neighbours, has_edge_iff, has_edge_comm}
use dgswemv.Adcirc.Boundary.Barriers.{
  IsPaired, OnBarrier, BesideBarrier, get_internal_node_pair_lem,
}

some_has_edge_comm : (ls : List (List ℕ)) (a b : ℕ) → some_has_edge ls a b ≡ some_has_edge ls b a
unfolding some_has_edge
some_has_edge_comm [] a b = refl
some_has_edge_comm (l ∷ ls) a b = rw (has_edge_comm l a b, some_has_edge_comm ls a b)

Verdict-cases : (v : Verdict) → ((t : ℕ) × (v ≡ is t)) ⊎ (v ≡ pass) ⊎ (v ≡ fail)
Verdict-cases (is t) = inl (t, refl)
Verdict-cases pass = inr (inl refl)
Verdict-cases fail = inr (inr refl)

module _ {D : Type 0} (bd : Boundaries D) where
  segment_verdict_comm :
      (segment a b : ℕ) → segment_verdict bd segment a b ≡ segment_verdict bd segment b a
  unfolding segment_verdict
  segment_verdict_comm segment a b = elim (Option-cases (find_key bd.ibconn segment)) [
    | inl e ↦ rw (has_edge_comm (get_or bd.nbvv segment []) a b, e) refl
    | inr (back, e) ↦
        rw (has_edge_comm (get_or bd.nbvv segment []) a b, e, has_edge_comm back a b) refl
  ]

  segments_verdict_comm :
      (rounds segment a b : ℕ)
      → segments_verdict bd rounds segment a b ≡ segments_verdict bd rounds segment b a
  unfolding segments_verdict
  segments_verdict_comm zero segment a b = refl
  segments_verdict_comm (suc rounds) segment a b =
      ground
        (arith, segment_verdict_comm segment a b, segments_verdict_comm rounds (suc segment) a b)

  -- The type of a boundary edge does not depend on the order in which its nodes are given.
  pub get_ibtype_comm : (a b : ℕ) → get_ibtype bd a b ≡ get_ibtype bd b a
  unfolding get_ibtype
  get_ibtype_comm a b = ground (
    arith,
    some_has_edge_comm bd.nbdv a b,
    segments_verdict_comm bd.nbou 0 a b,
    some_has_edge_comm bd.nbgn a b,
  )

  -- Every barrier segment has its back nodes in `IBCONN`.
  pub record IsKeyed : Type 0 where
    pub barrier :
        (segment : ℕ)
        → segment < bd.nbou
        → get_or bd.ibtype segment 0 % 10 ≡ 4
        → find_key bd.ibconn segment ≢ none

  find_key-BesideBarrier :
      (nbvv : List (List ℕ)) (barriers : List (ℕ × List ℕ)) (segment a b : ℕ) (back : List ℕ)
      → find_key barriers segment ≡ some back
      → Neighbours a b (get_or nbvv segment []) ⊎ Neighbours a b back
      → BesideBarrier nbvv barriers a b
  unfolding find_key
  find_key-BesideBarrier nbvv [] segment a b back h near = cc
  find_key-BesideBarrier nbvv ((k, v) ∷ rest) segment a b back h near =
      elim (Bool-cases (k == segment)) [
        | inl e ↦
            let here : k ≡ segment = ground arith in
            let same : v ≡ back = ground arith in
            rw (here, same)
              (elim near [ inl front_side ↦ inl front_side | inr back_side ↦ inr (inl back_side) ])
        | inr e ↦ inr (inr (find_key-BesideBarrier nbvv rest segment a b back (ground arith) near))
      ]

  segment_verdict-levee :
      (segment a b : ℕ)
      → segment < bd.nbou
      → IsKeyed
      → segment_verdict bd segment a b ≡ is levee
      → BesideBarrier bd.nbvv bd.ibconn a b
  unfolding segment_verdict
  segment_verdict-levee segment a b lt keyed h =
      let front = get_or bd.nbvv segment [] in
      let kind : get_or bd.ibtype segment 0 % 10 ≡ 4 = ground arith in
      elim (Option-cases (find_key bd.ibconn segment)) [
        | inl e ↦ absurd (keyed.barrier segment lt kind e)
        | inr (back, e) ↦
            find_key-BesideBarrier bd.nbvv bd.ibconn segment a b back e
              (elim (Bool-cases (has_edge front a b)) [
                | inl on ↦ inl ((has_edge_iff front a b).0 on)
                | inr off ↦ inr ((has_edge_iff back a b).0 (ground arith))
              ])
      ]

  segments_verdict-levee :
      (rounds segment a b : ℕ)
      → rounds + segment ≤ bd.nbou
      → IsKeyed
      → segments_verdict bd rounds segment a b ≡ is levee
      → BesideBarrier bd.nbvv bd.ibconn a b
  unfolding segments_verdict
  segments_verdict-levee zero segment a b h keyed e = cc
  segments_verdict-levee (suc rounds) segment a b h keyed e =
      elim (Verdict-cases (segment_verdict bd segment a b)) [
        | inl (t, q) ↦ segment_verdict-levee segment a b (omega arith) keyed (ground arith)
        | inr (inl q) ↦
            segments_verdict-levee rounds (suc segment) a b (omega arith) keyed (ground arith)
        | inr (inr q) ↦ absurd (ground arith)
      ]

  get_ibtype-eq-levee :
      (a b : ℕ) → get_ibtype bd a b ≡ some levee → segments_verdict bd bd.nbou 0 a b ≡ is levee
  unfolding get_ibtype
  get_ibtype-eq-levee a b h = ground arith

  -- If the barriers are read in pairs, an edge that is classified as a levee has its internal pair
  -- of nodes, opposite to the edge on some barrier: the mesh builder meets no exception there.
  pub get_ibtype-levee :
      (a b : ℕ)
      → IsKeyed
      → IsPaired bd.nbvv bd.ibconn
      → get_ibtype bd a b ≡ some levee
      → (p : ℕ) × (q : ℕ) × (get_internal_node_pair bd a b ≡ some (p, q))
        × OnBarrier bd.nbvv bd.ibconn a b p q
  get_ibtype-levee a b keyed paired h =
      get_internal_node_pair_lem bd a b paired
        (segments_verdict-levee bd.nbou 0 a b (omega arith) keyed (get_ibtype-eq-levee a b h))

  islands_pass :
      (rounds segment a b : ℕ)
      → rounds + segment ≤ bd.nbou
      → ((i : ℕ) → i < bd.nbou → get_or bd.ibtype i 0 % 10 ≡ 1)
      → segments_verdict bd rounds segment a b ≡ pass
  unfolding segments_verdict segment_verdict
  islands_pass zero segment a b h islands = refl
  islands_pass (suc rounds) segment a b h islands = ground (
    arith,
    islands segment (omega arith),
    islands_pass rounds (suc segment) a b (omega arith) islands,
  )

  -- With no open and no generic boundary, and only island segments (types 1, 11, 21, …), which the
  -- reader accepts, every edge ends in the exception.
  pub get_ibtype_island :
      (a b : ℕ)
      → bd.nbdv ≡ []
      → bd.nbgn ≡ []
      → ((segment : ℕ) → segment < bd.nbou → get_or bd.ibtype segment 0 % 10 ≡ 1)
      → get_ibtype bd a b ≡ none
  unfolding get_ibtype some_has_edge
  get_ibtype_island a b no_open no_generic islands =
      ground (arith, islands_pass bd.nbou 0 a b (omega arith) islands)
