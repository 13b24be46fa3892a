-- ===== src/Partitioner/Layout/Pairing.antt =====
-- The map that `pair_up` makes of ids and parts (partitioner/partition.cpp).
use dgswemv.Prelude.{
  ℕ, ◌<◌, ◌≡◌, ◌≢◌, ap, subst, ◌∙◌, sym, true, false, none, some, List, [], ◌∷◌, arith,
  bind-eq-some,
}
use dgswemv.Adcirc.Boundary.{find_key}
use dgswemv.Partitioner.Csr.{contains}
use dgswemv.Partitioner.Layout.{pair_up}
use dgswemv.Partitioner.Layout.RoundRobin.{IsFresh}
use dgswemv.Partitioner.Csr.Order.{AllBelow, IsOnce}

pair_up_absent :
    (ids ps : List ℕ) (m : List (ℕ × ℕ)) (e : ℕ)
    → pair_up ids ps ≡ some m
    → contains ids e ≡ false
    → find_key m e ≡ none
unfolding pair_up find_key contains
pair_up_absent [] ps m e h out = let same : m ≡ [] = cc in ap (λ x. find_key x e) same
pair_up_absent (id ∷ ids) [] m e h out = cc
pair_up_absent (id ∷ ids) (p ∷ ps) m e h out =
    let (rest, a, b) = bind-eq-some (pair_up ids ps) _ h in
    let same : m ≡ (id, p) ∷ rest = cc in
    let ih = pair_up_absent ids ps rest e a (ground arith) in
    ap (λ x. find_key x e) same ∙ ground (arith, ih)

pub pair_up_present :
    (ids ps : List ℕ) (m : List (ℕ × ℕ)) (e : ℕ)
    → pair_up ids ps ≡ some m
    → contains ids e ≡ true
    → find_key m e ≢ none
unfolding pair_up find_key contains
pair_up_present [] ps m e h here = cc
pair_up_present (id ∷ ids) [] m e h here = cc
pair_up_present (id ∷ ids) (p ∷ ps) m e h here =
    let (rest, a, b) = bind-eq-some (pair_up ids ps) _ h in
    let same : m ≡ (id, p) ∷ rest = cc in
    λ q.
      let q' : find_key ((id, p) ∷ rest) e ≡ none = ap (λ x. find_key x e) (sym same) ∙ q in
      ground (arith, pair_up_present ids ps rest e a)

pub pair_up_below :
    (n : ℕ) (ids ps : List ℕ) (m : List (ℕ × ℕ)) (e p : ℕ)
    → pair_up ids ps ≡ some m
    → AllBelow n ps
    → find_key m e ≡ some p
    → p < n
unfolding pair_up find_key
pair_up_below n [] ps m e p h all at =
    let same : m ≡ [] = cc in
    let bad : none ≡ some p = ap (λ x. find_key x e) (sym same) ∙ at in absurd (cc)
pair_up_below n (id ∷ ids) [] m e p h all at = cc
pair_up_below n (id ∷ ids) (v ∷ ps) m e p h (low, all) at =
    let (rest, a, b) = bind-eq-some (pair_up ids ps) _ h in
    let same : m ≡ (id, v) ∷ rest = cc in
    let at' : find_key ((id, v) ∷ rest) e ≡ some p = ap (λ x. find_key x e) (sym same) ∙ at in
    ground (arith, pair_up_below n ids ps rest e p a all)

pub pair_up-IsFresh :
    (np nn : ℕ) (ids ps : List ℕ) (m : List (ℕ × ℕ))
    → pair_up ids ps ≡ some m
    → IsOnce ids
    → AllBelow np ids
    → AllBelow nn ps
    → IsFresh np nn m
unfolding pair_up
pair_up-IsFresh np nn [] ps m h once low low' =
    let same : [] ≡ m = cc in subst (IsFresh np nn) same tt
pair_up-IsFresh np nn (id ∷ ids) [] m h once low low' = cc
pair_up-IsFresh np nn (id ∷ ids) (p ∷ ps) m h (new, once) (below, low) (below', low') =
    let (rest, a, b) = bind-eq-some (pair_up ids ps) _ h in
    let same : (id, p) ∷ rest ≡ m = cc in
    subst (IsFresh np nn) same (
      below,
      below',
      pair_up_absent ids ps rest id a new,
      pair_up-IsFresh np nn ids ps rest a once low low',
    )
