-- ===== src/Partitioner/Csr/Rows.antt =====
-- The compressed rows of `CSRMat` (partitioner/csrmat.hpp).
use dgswemv.Prelude.{
  ℕ, zero, suc, ◌+◌, ◌-◌, ◌≡◌, refl, ap, ◌∙◌, sym, Option, some, List, [], ◌∷◌, ◌++◌, length, arith,
  combine, combine-eq-some,
}
use dgswemv.Adcirc.Boundary.{find_key}
use dgswemv.Partitioner.Csr.{
  CsrMat, neighbors_of, xadj_from, xadj, mapping_from, row_of, adj_from, adj,
}

abbrev pub take {ℓ} : {A : Type ℓ} → ℕ → List A → List A
take zero xs = []
take (suc n) [] = []
take (suc n) (x ∷ xs) = x ∷ take n xs

abbrev pub drop {ℓ} : {A : Type ℓ} → ℕ → List A → List A
drop zero xs = xs
drop (suc n) [] = []
drop (suc n) (x ∷ xs) = drop n xs

take-append {ℓ} : {A : Type ℓ} (xs ys : List A) → take (length xs) (xs ++ ys) ≡ xs
take-append [] ys = refl
take-append (x ∷ xs) ys = ap (λ l. x ∷ l) (take-append xs ys)

drop-append {ℓ} : {A : Type ℓ} (xs ys : List A) → drop (length xs) (xs ++ ys) ≡ ys
drop-append [] ys = refl
drop-append (x ∷ xs) ys = drop-append xs ys

-- What a reader of compressed rows sees: row `i` is what stands from `xadj[i]` to `xadj[i + 1]`.
abbrev pub decode {ℓ} : {A : Type ℓ} → ℕ → List ℕ → List A → List (List A)
decode start [] flat = []
decode start (stop ∷ stops) flat =
    take (stop - start) flat ∷ decode stop stops (drop (stop - start) flat)

-- The first entry of `xadj` starts the first row.
abbrev pub rows_of {ℓ} : {A : Type ℓ} → List ℕ → List A → List (List A)
rows_of [] flat = []
rows_of (start ∷ stops) flat = decode start stops flat

-- The rows of the graph itself: the places of each node's neighbours among the nodes.
abbrev pub index_rows : List (ℕ × List ℕ) → List (ℕ × ℕ) → List ℕ → Option (List (List ℕ))
index_rows edges mapping [] = some []
index_rows edges mapping (src ∷ srcs) =
    combine ◌∷◌ (row_of mapping (neighbors_of edges src)) (index_rows edges mapping srcs)

decode-block {ℓ} :
    {A : Type ℓ} (start n : ℕ) (row rest : List A) (stops : List ℕ)
    → length row ≡ n
    → decode start ((start + n) ∷ stops) (row ++ rest) ≡ row ∷ decode (start + n) stops rest
decode-block start n row rest stops h =
    let e : start + n - start ≡ length row = omega (arith, h) in
    rw (e, take-append row rest, drop-append row rest)

length-row_of :
    (mapping : List (ℕ × ℕ)) (dsts row : List ℕ)
    → row_of mapping dsts ≡ some row
    → length row ≡ length dsts
unfolding row_of
length-row_of mapping [] row h = let same : row ≡ [] = cc in ap length same
length-row_of mapping (dst ∷ dsts) row h =
    let (i, is, _, e, same) = combine-eq-some ◌∷◌ (find_key mapping dst) (row_of mapping dsts) h in
    sym (ap length same) ∙ ap suc (length-row_of mapping dsts is e)

decode-adj_from :
    (edges : List (ℕ × List ℕ)) (mapping : List (ℕ × ℕ)) (start : ℕ) (srcs flat : List ℕ)
    → adj_from edges mapping srcs ≡ some flat
    → some (decode start (xadj_from edges start srcs) flat) ≡ index_rows edges mapping srcs
unfolding adj_from xadj_from
decode-adj_from edges mapping start [] flat h = refl
decode-adj_from edges mapping start (src ∷ srcs) flat h =
    let (row, rest, e, e', same) =
      combine-eq-some ◌++◌ (row_of mapping (neighbors_of edges src)) (adj_from edges mapping srcs)
        h in
    let n = length (neighbors_of edges src) in
    let ih = decode-adj_from edges mapping (start + n) srcs rest e' in
    rw
      (
        ← same,
        decode-block start n row rest (xadj_from edges (start + n) srcs)
            (length-row_of mapping (neighbors_of edges src) row e),
        e,
        ← ih,
      )
      refl

-- Wherever `adj` returns, cutting it at the entries of `xadj` gives, node by node, the places of
-- the node's neighbours.
pub rows_of-adj :
    {D : Type 0} (g : CsrMat D) (flat : List ℕ)
    → adj g ≡ some flat
    → some (rows_of (xadj g) flat) ≡ index_rows g.edges (mapping_from 0 g.nodes) g.nodes
unfolding adj xadj
rows_of-adj g flat h = decode-adj_from g.edges (mapping_from 0 g.nodes) 0 g.nodes flat h
