-- ===== src/Partitioner/Layout/RoundRobin.antt =====
-- The dealing of partitions to places on ranks (partitioner/partition.cpp, the loop over
-- `partition2node`).
use dgswemv.Prelude.{
  ℕ, zero, suc, ◌+◌, ◌*◌, ◌%◌, ◌<◌, ◌≡◌, ◌≢◌, refl, sym, ap, ◌∙◌, some, none, List, [], ◌∷◌, get_or,
  set, length, length-set, replicate, arith, false, ◌==◌, Bool-cases, Option-cases, inl, inr,
  if◌then◌else◌,
}
use native.Mathlib.Nat.{mul-le-mul_left, mul-suc}
use dgswemv.Adcirc.Boundary.{find_key}
use dgswemv.Partitioner.Layout.{Ranks, assign_rank, assign_ranks, new_ranks, slot_of}

get_or-set :
    (xs : List ℕ) (i j v : ℕ)
    → i < length xs
    → get_or (set xs i v) j 0 ≡ (if i == j then v else get_or xs j 0)
get_or-set [] i j v low = absurd (omega arith)
get_or-set (x ∷ xs) zero zero v low = ground arith
get_or-set (x ∷ xs) zero (suc j) v low = ground arith
get_or-set (x ∷ xs) (suc i) zero v low = ground arith
get_or-set (x ∷ xs) (suc i) (suc j) v low = ground (arith, get_or-set xs i j v)

get_or-replicate : (n j : ℕ) → get_or {A = ℕ} (replicate n 0) j 0 ≡ 0
get_or-replicate zero j = refl
get_or-replicate (suc n) zero = refl
get_or-replicate (suc n) (suc j) = get_or-replicate n j

length-replicate : (n : ℕ) → length {A = ℕ} (replicate n 0) ≡ n
length-replicate zero = refl
length-replicate (suc n) = ap suc (length-replicate n)

mod_bound : (a n : ℕ) → 0 < n → a % n < n
mod_bound a n pos = omega arith

-- Every partition has an entry once, and both the partition and its node are in range.
abbrev pub IsFresh : ℕ → ℕ → List (ℕ × ℕ) → Type 0
IsFresh num_partitions num_nodes [] = Unit
IsFresh num_partitions num_nodes ((p, node) ∷ rest) =
    (p < num_partitions)
    × (node < num_nodes)
    × (find_key rest p ≡ none)
    × IsFresh num_partitions num_nodes rest

-- The state of the loop: ranks are in range, a place that is dealt lies below its rank's counter,
-- and no two partitions have the same place on the same rank.
record IsDealt (num_partitions num_nodes rpl : ℕ) (s : Ranks) : Type 0 where
  places : length s.partition2local_partition ≡ num_partitions
  counters : length s.local_partition_counter ≡ num_nodes * rpl
  nodes : length s.local_rank_counter ≡ num_nodes
  turns : (node : ℕ) → get_or s.local_rank_counter node 0 < rpl
  in_range : (p r : ℕ) → find_key s.partition2rank p ≡ some r → r < num_nodes * rpl
  counted :
      (p r : ℕ)
      → find_key s.partition2rank p ≡ some r
      → get_or s.partition2local_partition p 0 < get_or s.local_partition_counter r 0
  apart :
      (p q r : ℕ)
      → find_key s.partition2rank p ≡ some r
      → find_key s.partition2rank q ≡ some r
      → get_or s.partition2local_partition p 0 ≡ get_or s.partition2local_partition q 0
      → p ≡ q

rank_bound : (turn rpl node n : ℕ) → turn < rpl → node < n → turn + rpl * node < n * rpl
rank_bound turn rpl node n low low' = omega (arith, mul-le-mul_left rpl low', mul-suc rpl node, low)

new_ranks-IsDealt :
    (num_partitions num_nodes rpl : ℕ)
    → 0 < rpl
    → IsDealt num_partitions num_nodes rpl (new_ranks num_partitions num_nodes rpl)
unfolding new_ranks find_key
new_ranks-IsDealt np n rpl pos = record {
  places = length-replicate np;
  counters = length-replicate (n * rpl);
  nodes = length-replicate n;
  turns = λ node. omega (arith, get_or-replicate n node);
  in_range = λ p r h. cc;
  counted = λ p r h. cc;
  apart = λ p q r h. cc;
}

module _ (np n rpl : ℕ) (pos : 0 < rpl) where
  assign_rank-IsDealt :
      (s : Ranks) (p node : ℕ)
      → p < np
      → node < n
      → find_key s.partition2rank p ≡ none
      → IsDealt np n rpl s
      → IsDealt np n rpl (assign_rank rpl s p node)
  unfolding assign_rank find_key
  assign_rank-IsDealt s p node low low' fresh inv =
      let turn = get_or s.local_rank_counter node 0 in
      let rank = turn + rpl * node in
      let place = get_or s.local_partition_counter rank 0 in
      let bound : rank < n * rpl = rank_bound turn rpl node n (inv.turns node) low' in
      let counter = λ (r : ℕ).
        get_or-set s.local_partition_counter rank r (place + 1)
          (omega (arith, bound, inv.counters)) in
      let dealt = λ (q : ℕ).
        get_or-set s.partition2local_partition p q place (omega (arith, low, inv.places)) in
      let turned = λ (m : ℕ).
        get_or-set s.local_rank_counter node m ((turn + 1) % rpl)
          (omega (arith, low', inv.nodes)) in
      record {
        places = length-set s.partition2local_partition p place ∙ inv.places;
        counters = length-set s.local_partition_counter rank (place + 1) ∙ inv.counters;
        nodes = length-set s.local_rank_counter node ((turn + 1) % rpl) ∙ inv.nodes;
        turns = λ m. ground (arith, turned m, inv.turns m, mod_bound (turn + 1) rpl pos);
        in_range = λ q r h. ground (arith, inv.in_range q r, bound);
        counted = λ q r h. ground (arith, counter r, dealt q, inv.counted q r);
        apart = λ q q' r h h' e.
            ground (arith, dealt q, dealt q', inv.apart q q' r, inv.counted q r, inv.counted q' r);
      }

  assign_rank-fresh :
      (s : Ranks) (p q node : ℕ)
      → (p == q) ≡ false
      → find_key s.partition2rank q ≡ none
      → find_key (assign_rank rpl s p node).partition2rank q ≡ none
  unfolding assign_rank find_key
  assign_rank-fresh s p q node other h = ground arith

  -- Partitions that are still to come have no rank.
  abbrev AllNew : Ranks → List (ℕ × ℕ) → Type 0
  AllNew s [] = Unit
  AllNew s ((p, node) ∷ rest) = (find_key s.partition2rank p ≡ none) × AllNew s rest

  assign_rank-AllNew :
      (s : Ranks) (p node : ℕ) (rest : List (ℕ × ℕ))
      → find_key rest p ≡ none
      → AllNew s rest
      → AllNew (assign_rank rpl s p node) rest
  unfolding find_key
  assign_rank-AllNew s p node [] absent new = tt
  assign_rank-AllNew s p node ((q, m) ∷ rest) absent (new, news) = (
    assign_rank-fresh s p q node (ground arith) new,
    assign_rank-AllNew s p node rest (ground arith) news,
  )

  assign_ranks-IsDealt :
      (s : Ranks) (ps : List (ℕ × ℕ))
      → IsFresh np n ps
      → AllNew s ps
      → IsDealt np n rpl s
      → IsDealt np n rpl (assign_ranks rpl s ps)
  unfolding assign_ranks
  assign_ranks-IsDealt s [] fresh new inv = inv
  assign_ranks-IsDealt s ((p, node) ∷ rest) (low, low', absent, fresh) (new, news) inv =
      assign_ranks-IsDealt (assign_rank rpl s p node) rest fresh
        (assign_rank-AllNew s p node rest absent news)
        (assign_rank-IsDealt s p node low low' new inv)

  all_new : (ps : List (ℕ × ℕ)) → AllNew (new_ranks np n rpl) ps
  unfolding new_ranks find_key
  all_new [] = tt
  all_new ((p, node) ∷ rest) = (refl, all_new rest)

  dealt :
      (ps : List (ℕ × ℕ))
      → IsFresh np n ps
      → IsDealt np n rpl (assign_ranks rpl (new_ranks np n rpl) ps)
  dealt ps fresh =
      assign_ranks-IsDealt (new_ranks np n rpl) ps fresh (all_new ps)
        (new_ranks-IsDealt np n rpl pos)

assign_ranks-keeps :
    (rpl : ℕ) (s : Ranks) (p : ℕ) (ps : List (ℕ × ℕ))
    → find_key s.partition2rank p ≢ none
    → find_key (assign_ranks rpl s ps).partition2rank p ≢ none
unfolding assign_ranks assign_rank find_key
assign_ranks-keeps rpl s p [] h = h
assign_ranks-keeps rpl s p ((q, node) ∷ rest) h =
    assign_ranks-keeps rpl (assign_rank rpl s q node) p rest (ground arith)

assign_ranks-enters :
    (rpl : ℕ) (s : Ranks) (p : ℕ) (ps : List (ℕ × ℕ))
    → find_key ps p ≢ none
    → find_key (assign_ranks rpl s ps).partition2rank p ≢ none
unfolding assign_ranks assign_rank find_key
assign_ranks-enters rpl s p [] h = absurd (h refl)
assign_ranks-enters rpl s p ((q, node) ∷ rest) h = elim (Bool-cases (q == p)) [
  | inl e ↦ assign_ranks-keeps rpl (assign_rank rpl s q node) p rest (ground arith)
  | inr e ↦ assign_ranks-enters rpl (assign_rank rpl s q node) p rest (ground arith)
]

module _ (num_partitions num_nodes rpl : ℕ) (ps : List (ℕ × ℕ)) (pos : 0 < rpl)
    (fresh : IsFresh num_partitions num_nodes ps) where
  abbrev final : Ranks
  final = assign_ranks rpl (new_ranks num_partitions num_nodes rpl) ps

  ranked : (p : ℕ) → find_key ps p ≢ none → (r : ℕ) × (find_key final.partition2rank p ≡ some r)
  ranked p h = elim (Option-cases (find_key final.partition2rank p)) [
    | inl e ↦ absurd (assign_ranks-enters rpl (new_ranks num_partitions num_nodes rpl) p ps h e)
    | inr found ↦ found
  ]

  slot_of-rank : (p r : ℕ) → find_key final.partition2rank p ≡ some r → (slot_of final p).rank ≡ r
  unfolding slot_of
  slot_of-rank p r h = rw (h, slot_of)

-- If there is at least one rank on a node, every partition is dealt once, and it and its node are
-- in range (both below the numbers of partitions and of nodes that the loop is run with), then
-- every partition that is dealt gets a rank that exists, and on it a place below the number of
-- submeshes that are made there, whatever the order of the partitions.
pub slot_of-in_range :
    (num_partitions num_nodes rpl : ℕ) (ps : List (ℕ × ℕ))
    → 0 < rpl
    → IsFresh num_partitions num_nodes ps
    → (p : ℕ) → find_key ps p ≢ none
    → let r = assign_ranks rpl (new_ranks num_partitions num_nodes rpl) ps in
      ((slot_of r p).rank < num_nodes * rpl)
      × ((slot_of r p).place < get_or r.local_partition_counter (slot_of r p).rank 0)
unfolding slot_of
slot_of-in_range num_partitions num_nodes rpl ps pos fresh p h =
    let (r, found) = ranked num_partitions num_nodes rpl ps pos fresh p h in
    let inv = dealt num_partitions num_nodes rpl pos ps fresh in
    rw (found, slot_of) (inv.in_range p r found, inv.counted p r found)

-- If there is at least one rank on a node, every partition is dealt once, and it and its node are
-- in range, then two different partitions that are dealt never share a place on a rank.
pub slot_of-apart :
    (num_partitions num_nodes rpl : ℕ) (ps : List (ℕ × ℕ))
    → 0 < rpl
    → IsFresh num_partitions num_nodes ps
    → (p q : ℕ) → find_key ps p ≢ none
    → find_key ps q ≢ none
    → p ≢ q
    → let r = assign_ranks rpl (new_ranks num_partitions num_nodes rpl) ps in
      ¬ (slot_of r p ≡ slot_of r q)
unfolding slot_of
slot_of-apart num_partitions num_nodes rpl ps pos fresh p q h h' other e =
    let (r, found) = ranked num_partitions num_nodes rpl ps pos fresh p h in
    let (r', found') = ranked num_partitions num_nodes rpl ps pos fresh q h' in
    let inv = dealt num_partitions num_nodes rpl pos ps fresh in
    let same : r ≡ r' =
      sym (slot_of-rank num_partitions num_nodes rpl ps pos fresh p r found)
      ∙ ap (λ x. x.rank) e
      ∙ slot_of-rank num_partitions num_nodes rpl ps pos fresh q r' found' in
    other (inv.apart p q r found (found' ∙ ap some (sym same)) (ap (λ x. x.place) e))
