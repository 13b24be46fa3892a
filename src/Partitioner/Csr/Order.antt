-- ===== src/Partitioner/Csr/Order.antt =====
-- Lists of ids without repetition and below a bound, and their sorting (partitioner/csrmat.hpp).
use dgswemv.Prelude.{
  ℕ, zero, suc, ◌<◌, ◌≡◌, refl, ◌∙◌, inl, inr, false, List, [], ◌∷◌, All, replicate, leb, arith,
  Bool-cases,
}
use dgswemv.Partitioner.Csr.{contains, insert, sort}
use dgswemv.Partitioner.Csr.Edges.{contains-insert, contains-sort}

abbrev pub AllBelow : ℕ → List ℕ → Type 0
AllBelow n vs = All (λ v. v < n) vs

abbrev pub IsOnce : List ℕ → Type 0
IsOnce [] = Unit
IsOnce (x ∷ xs) = (contains xs x ≡ false) × IsOnce xs

pub zeros_below : (n k : ℕ) → 0 < n → AllBelow n (replicate k 0)
zeros_below n zero h = tt
zeros_below n (suc k) h = (h, zeros_below n k h)

insert_below : (n x : ℕ) (xs : List ℕ) → x < n → AllBelow n xs → AllBelow n (insert x xs)
unfolding insert
insert_below n x [] h all = (h, tt)
insert_below n x (y ∷ ys) h (low, all) = elim (Bool-cases (leb x y)) [
  | inl e ↦ rw e (h, (low, all))
  | inr e ↦ rw e (low, insert_below n x ys h all)
]

pub sort_below : (n : ℕ) (xs : List ℕ) → AllBelow n xs → AllBelow n (sort xs)
unfolding sort
sort_below n [] all = tt
sort_below n (x ∷ xs) (low, all) = insert_below n x (sort xs) low (sort_below n xs all)

insert-IsOnce : (x : ℕ) (xs : List ℕ) → contains xs x ≡ false → IsOnce xs → IsOnce (insert x xs)
unfolding insert contains
insert-IsOnce x [] new once = (refl, tt)
insert-IsOnce x (y ∷ ys) new (apart, once) = elim (Bool-cases (leb x y)) [
  | inl e ↦ rw e (new, (apart, once))
  | inr e ↦ rw e (contains-insert x y ys ∙ ground arith, insert-IsOnce x ys (ground arith) once)
]

pub sort-IsOnce : (xs : List ℕ) → IsOnce xs → IsOnce (sort xs)
unfolding sort
sort-IsOnce [] once = tt
sort-IsOnce (x ∷ xs) (new, once) =
    insert-IsOnce x (sort xs) (contains-sort x xs ∙ new) (sort-IsOnce xs once)
