-- ===== src/Partitioner/Layout.antt =====
-- Where the elements go: to partitions, and these to places on ranks (partitioner/partition.cpp).
pub mod RoundRobin
pub mod Pairing
use dgswemv.Prelude.{
  ℕ, ◌+◌, ◌*◌, ◌%◌, Option, none, some, List, [], ◌∷◌, get_or, set, replicate, bind,
}
use dgswemv.Adcirc.Boundary.{find_key}

-- `map.insert({nodes.at(i), part.at(i)})` for every `i`.
unfoldable pub pair_up : List ℕ → List ℕ → Option (List (ℕ × ℕ))
pair_up [] ps = some []
pair_up (id ∷ ids) [] = none
pair_up (id ∷ ids) (p ∷ ps) = bind (pair_up ids ps) (λ rest. some ((id, p) ∷ rest))

-- What the loop over `partition2node` fills in.
pub record Ranks : Type 0 where
  pub local_partition_counter : List ℕ
  pub local_rank_counter : List ℕ
  pub partition2rank : List (ℕ × ℕ)
  pub partition2local_partition : List ℕ

-- One round: the rank is dealt round robin on the node, the place is counted on the rank.
unfoldable pub assign_rank : ℕ → Ranks → ℕ → ℕ → Ranks
assign_rank ranks_per_locality s p node =
    let turn = get_or s.local_rank_counter node 0 in
    let rank = turn + ranks_per_locality * node in
    let place = get_or s.local_partition_counter rank 0 in
    record {
      local_partition_counter = set s.local_partition_counter rank (place + 1);
      local_rank_counter = set s.local_rank_counter node ((turn + 1) % ranks_per_locality);
      partition2rank = (p, rank) ∷ s.partition2rank;
      partition2local_partition = set s.partition2local_partition p place;
    }

unfoldable pub assign_ranks : ℕ → Ranks → List (ℕ × ℕ) → Ranks
assign_ranks ranks_per_locality s [] = s
assign_ranks ranks_per_locality s ((p, node) ∷ rest) =
    assign_ranks ranks_per_locality (assign_rank ranks_per_locality s p node) rest

unfoldable pub new_ranks : ℕ → ℕ → ℕ → Ranks
new_ranks num_partitions num_nodes ranks_per_locality = record {
  local_partition_counter = replicate (num_nodes * ranks_per_locality) 0;
  local_rank_counter = replicate num_nodes 0;
  partition2rank = [];
  partition2local_partition = replicate num_partitions 0;
}

-- The maps by which the submesh of an element is found.
pub record Layout : Type 0 where
  pub elt2partition : List (ℕ × ℕ)
  pub ranks : Ranks

pub record Slot : Type 0 where
  pub rank : ℕ
  pub place : ℕ

-- `partition2rank[partition]` is 0 where the map has no entry.
unfoldable pub slot_of : Ranks → ℕ → Slot
slot_of r p = record {
  rank = elim (find_key r.partition2rank p) [ none ↦ 0 | some rank ↦ rank ];
  place = get_or r.partition2local_partition p 0;
}

unfoldable pub locate : Layout → ℕ → Option Slot
locate l elt = bind (find_key l.elt2partition elt) (λ p. some (slot_of l.ranks p))
