-- ===== src/Integration/Signed.antt =====
-- Signed numbers over the native natural numbers, for decimals in fixed point, and bounded tests.
use dgswemv.Prelude.{
  ℕ, zero, suc, ◌+◌, ◌*◌, ◌-◌, ◌%◌, ◌^◌, ◌<◌, ◌≡◌, refl, Bool, true, false, ◌&&◌, ◌==◌, ltb, inl,
  inr, Bool-cases, if◌then◌else◌, arith,
}

pub data ℤ : Type 0 where
  pos : ℕ → ℤ
  negsuc : ℕ → ℤ

abbrev pub neg : ℕ → ℤ
neg zero = pos zero
neg (suc n) = negsuc n

-- `m - n`
abbrev pub difference : ℕ → ℕ → ℤ
difference m n = if ltb m n then neg (n - m) else pos (m - n)

infixl 65 ◌+ℤ◌
infixl 70 ◌*ℤ◌
abbrev pub ◌+ℤ◌ : ℤ → ℤ → ℤ
pos m +ℤ pos n = pos (m + n)
pos m +ℤ negsuc n = difference m (n + 1)
negsuc m +ℤ pos n = difference n (m + 1)
negsuc m +ℤ negsuc n = neg (m + n + 2)

abbrev pub ◌*ℤ◌ : ℤ → ℤ → ℤ
pos m *ℤ pos n = pos (m * n)
pos m *ℤ negsuc n = neg (m * (n + 1))
negsuc m *ℤ pos n = neg ((m + 1) * n)
negsuc m *ℤ negsuc n = pos ((m + 1) * (n + 1))

abbrev pub power : ℤ → ℕ → ℤ
power (pos m) k = pos (m ^ k)
power (negsuc m) k = if k % 2 == 0 then pos ((m + 1) ^ k) else neg ((m + 1) ^ k)

abbrev pub magnitude : ℤ → ℕ
magnitude (pos m) = m
magnitude (negsuc m) = m + 1

abbrev pub factorial : ℕ → ℕ
factorial zero = 1
factorial (suc n) = (n + 1) * factorial n

-- The tests `f 0`, …, `f (n - 1)` together.
abbrev pub all_below : (ℕ → Bool) → ℕ → Bool
all_below f zero = true
all_below f (suc n) = f n && all_below f n

pub all_below_lem : (f : ℕ → Bool) (n : ℕ) → all_below f n ≡ true → (k : ℕ) → k < n → f k ≡ true
all_below_lem f zero h k lt = absurd (omega arith)
all_below_lem f (suc n) h k lt = elim (Bool-cases (k == n)) [
  | inl e ↦ let same : k ≡ n = ground arith in rw same (ground arith)
  | inr e ↦ all_below_lem f n (ground arith) k (ground arith)
]

pub and-eq-true : (a b : Bool) → (a && b) ≡ true → (a ≡ true) × (b ≡ true)
and-eq-true true b h = (refl, h)
and-eq-true false b h = absurd (let bad : false ≡ true = h in cc)

pub ==→eq : (a b : ℕ) → (a == b) ≡ true → a ≡ b
==→eq a b h = ground arith
