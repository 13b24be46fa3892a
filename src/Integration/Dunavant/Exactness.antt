-- ===== src/Integration/Dunavant/Exactness.antt =====
-- The accuracy of the rules of `Dunavant_2D`
-- (source/integration/integrations_2D/integration_dunavant_2D.cpp).
use dgswemv.Prelude.{
  ℕ, ◌+◌, ◌*◌, ◌-◌, ◌^◌, ◌≤◌, ◌≡◌, refl, Bool, true, false, ◌&&◌, ◌==◌, leb, Option, none, some,
  List, [], ◌∷◌, length, arith, subst, leb→le,
}
use dgswemv.Integration.Signed.{
  ℤ, pos, neg, ◌+ℤ◌, ◌*ℤ◌, power, magnitude, factorial, all_below, all_below_lem, and-eq-true,
  ==→eq,
}
use dgswemv.Integration.Tables.DunavantTo10.{
  dunavant_1, dunavant_2, dunavant_3, dunavant_4, dunavant_5, dunavant_6, dunavant_7, dunavant_8,
  dunavant_9, dunavant_10,
}
use dgswemv.Integration.Tables.DunavantTo16.{
  dunavant_11, dunavant_12, dunavant_13, dunavant_14, dunavant_15, dunavant_16,
}
use dgswemv.Integration.Tables.DunavantTo20.{dunavant_17, dunavant_18, dunavant_19, dunavant_20}
use dgswemv.Integration.Dunavant.{
  GaussPoint, get_num_gp, permutation_data, gp_data, master, point, orbit, expand, get_rule,
}

-- The rule applied to `((x + 1) / 2) ^ i * ((y + 1) / 2) ^ j`, times `2 ^ (i + j)`, in units of
-- `10 ^ -15` to the power `i + j + 1`.
abbrev pub moment : ℕ → ℕ → List GaussPoint → ℤ
moment i j [] = pos 0
moment i j (q ∷ qs) =
    q.weight *ℤ power (q.x +ℤ pos (10 ^ 15)) i *ℤ power (q.y +ℤ pos (10 ^ 15)) j +ℤ moment i j qs

-- The integral of that function over the master triangle is `4 * i! * j! / (i + j + 2)!`.
abbrev pub moment_error : ℕ → ℕ → List GaussPoint → ℕ
moment_error i j r = magnitude (
    pos (factorial (i + j + 2)) *ℤ moment i j r
    +ℤ neg (4 * factorial i * factorial j * 2 ^ (i + j) * 10 ^ (15 * (i + j + 1))))

abbrev pub moment_bound : ℕ → ℕ → ℕ
moment_bound i j = factorial (i + j + 2) * 2 ^ (i + j) * (20 * 10 ^ (15 * (i + j)))

abbrev pub sum : List ℕ → ℕ
sum [] = 0
sum (n ∷ ns) = n + sum ns

-- The points are as many as `GetNumGP` says and as the rule was resized to, and every monomial in
-- `(x + 1) / 2` and `(y + 1) / 2` of degree at most `p` is integrated up to 2 * 10 ^ -14.
pub record IsExact (p : ℕ) (r : List GaussPoint) : Type 0 where
  pub count : length r ≡ get_num_gp p
  pub filled : length r ≡ sum (permutation_data p)
  pub exact : (i j : ℕ) → i + j ≤ p → moment_error i j r ≤ moment_bound i j

abbrev test_moments : ℕ → List GaussPoint → Bool
test_moments p r =
    all_below (λ i. all_below (λ j. leb (moment_error i j r) (moment_bound i j)) (p - i + 1))
      (p + 1)

abbrev test_rule : ℕ → Option (List GaussPoint) → Bool
test_rule p none = false
test_rule p (some r) =
    length r == get_num_gp p && (length r == sum (permutation_data p) && test_moments p r)

abbrev test : ℕ → Bool
test p = test_rule p (get_rule p)

all_pass : all_below (λ k. test (k + 1)) 20 ≡ true
unfolding get_num_gp permutation_data gp_data get_rule expand orbit point master dunavant_1
    dunavant_2 dunavant_3 dunavant_4 dunavant_5 dunavant_6 dunavant_7 dunavant_8 dunavant_9
    dunavant_10 dunavant_11 dunavant_12 dunavant_13 dunavant_14 dunavant_15 dunavant_16 dunavant_17
    dunavant_18 dunavant_19 dunavant_20
all_pass = refl

test_moments_lem :
    (p : ℕ) (r : List GaussPoint)
    → test_moments p r ≡ true
    → (i j : ℕ) → i + j ≤ p
    → moment_error i j r ≤ moment_bound i j
test_moments_lem p r h i j le =
    let row = all_below_lem _ (p + 1) h i (omega arith) in
    leb→le _ _ (all_below_lem _ (p - i + 1) row j (omega arith))

test_rule_lem :
    (p : ℕ) (o : Option (List GaussPoint))
    → test_rule p o ≡ true
    → (r : List GaussPoint) × (o ≡ some r) × IsExact p r
test_rule_lem p none h = cc
test_rule_lem p (some r) h =
    let (counted, rest) = and-eq-true _ _ h in
    let (filled, moments) = and-eq-true _ _ rest in
    (
      r,
      refl,
      record {
        count = ==→eq _ _ counted;
        filled = ==→eq _ _ filled;
        exact = test_moments_lem p r moments;
      },
    )

-- For every strength from 1 to 20 `GetRule` returns a rule; its points are as many as `GetNumGP`
-- says and as the permutation sizes add up to; and every product
-- `((x + 1) / 2) ^ i * ((y + 1) / 2) ^ j` of degree `i + j` at most the strength is integrated over
-- the master triangle up to `2 * 10 ^ -14`, in exact arithmetic on the decimals of the tables.
pub get_rule-IsExact :
    (p : ℕ) → 1 ≤ p → p ≤ 20 → (r : List GaussPoint) × (get_rule p ≡ some r) × IsExact p r
get_rule-IsExact p ge le =
    let e : p - 1 + 1 ≡ p = omega arith in
    let passed = all_below_lem (λ k. test (k + 1)) 20 all_pass (p - 1) (omega arith) in
    test_rule_lem p (get_rule p) (subst (λ q. test q ≡ true) e passed)
