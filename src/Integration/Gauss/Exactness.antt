-- ===== src/Integration/Gauss/Exactness.antt =====
-- The accuracy of the rules of `GaussLegendre_1D`
-- (source/integration/integrations_1D/integration_gausslegendre_1D.cpp).
use dgswemv.Prelude.{
  ℕ, ◌+◌, ◌*◌, ◌%◌, ◌^◌, ◌≤◌, ◌≡◌, refl, Bool, true, false, ◌&&◌, ◌==◌, leb, Option, none, some,
  List, ◌∷◌, length, if◌then◌else◌, arith, leb→le,
}
use dgswemv.Integration.Signed.{
  ℤ, pos, neg, ◌+ℤ◌, ◌*ℤ◌, power, magnitude, all_below, all_below_lem, and-eq-true, ==→eq,
}
use dgswemv.Integration.Data.{LineData}
use dgswemv.Integration.Gauss.{get_num_gp, gp_data, get_rule}
use dgswemv.Integration.Tables.GaussTo9.{
  gauss_1, gauss_2, gauss_3, gauss_4, gauss_5, gauss_6, gauss_7, gauss_8, gauss_9,
}
use dgswemv.Integration.Tables.GaussTo14.{gauss_10, gauss_11, gauss_12, gauss_13, gauss_14}
use dgswemv.Integration.Tables.GaussTo18.{gauss_15, gauss_16, gauss_17, gauss_18}
use dgswemv.Integration.Tables.GaussTo22.{gauss_19, gauss_20, gauss_21, gauss_22}
use dgswemv.Integration.Tables.GaussTo25.{gauss_23, gauss_24, gauss_25}
use dgswemv.Integration.Tables.GaussTo28.{gauss_26, gauss_27, gauss_28}
use dgswemv.Integration.Tables.GaussTo31.{gauss_29, gauss_30, gauss_31}
use dgswemv.Integration.Tables.GaussTo33.{gauss_32, gauss_33}

-- The rule applied to `x ^ k`, in units of `10 ^ -31` to the power `k + 1`.
abbrev pub moment : ℕ → List ℤ → List ℤ → ℤ
moment k (w ∷ ws) (x ∷ xs) = w *ℤ power x k +ℤ moment k ws xs
moment k _ _ = pos 0

-- The integral of `x ^ k` from -1 to 1 is `2 / (k + 1)` for an even `k` and 0 for an odd one.
abbrev pub moment_error : ℕ → LineData → ℕ
moment_error k r = magnitude (
    pos (k + 1) *ℤ moment k r.weights r.points
    +ℤ neg (if k % 2 == 0 then 2 * 10 ^ (31 * (k + 1)) else 0))

abbrev pub moment_bound : ℕ → ℕ
moment_bound k = (k + 1) * (10 ^ 5 * 10 ^ (31 * k))

-- The weights and the points are as many as `GetNumGP` says, and every power of degree at most `p`
-- is integrated from -1 to 1 up to 10 ^ -26.
pub record IsExact (p : ℕ) (r : LineData) : Type 0 where
  pub count : length r.points ≡ get_num_gp p
  pub weighted : length r.weights ≡ get_num_gp p
  pub exact : (k : ℕ) → k ≤ p → moment_error k r ≤ moment_bound k

abbrev test_moments : ℕ → LineData → Bool
test_moments p r = all_below (λ k. leb (moment_error k r) (moment_bound k)) (p + 1)

abbrev test_rule : ℕ → Option (LineData) → Bool
test_rule p none = false
test_rule p (some r) =
    length r.points == get_num_gp p && (length r.weights == get_num_gp p && test_moments p r)

abbrev test : ℕ → Bool
test p = test_rule p (get_rule p)

all_pass : all_below test 66 ≡ true
unfolding get_num_gp gp_data get_rule gauss_1 gauss_2 gauss_3 gauss_4 gauss_5 gauss_6 gauss_7
    gauss_8 gauss_9 gauss_10 gauss_11 gauss_12 gauss_13 gauss_14 gauss_15 gauss_16 gauss_17 gauss_18
    gauss_19 gauss_20 gauss_21 gauss_22 gauss_23 gauss_24 gauss_25 gauss_26 gauss_27 gauss_28
    gauss_29 gauss_30 gauss_31 gauss_32 gauss_33
all_pass = refl

test_moments_lem :
    (p : ℕ) (r : LineData)
    → test_moments p r ≡ true
    → (k : ℕ) → k ≤ p
    → moment_error k r ≤ moment_bound k
test_moments_lem p r h k le = leb→le _ _ (all_below_lem _ (p + 1) h k (omega arith))

test_rule_lem :
    (p : ℕ) (o : Option (LineData))
    → test_rule p o ≡ true
    → (r : LineData) × (o ≡ some r) × IsExact p r
test_rule_lem p none h = cc
test_rule_lem p (some r) h =
    let (counted, rest) = and-eq-true _ _ h in
    let (weighted, moments) = and-eq-true _ _ rest in
    (
      r,
      refl,
      record {
        count = ==→eq _ _ counted;
        weighted = ==→eq _ _ weighted;
        exact = test_moments_lem p r moments;
      },
    )

-- For every strength up to 65 `GetRule` returns a rule with as many weights and points as
-- `GetNumGP` says, and it integrates `x ^ k` from -1 to 1 up to `10 ^ -26` for every `k` at most
-- the strength, in exact arithmetic on the decimals of the tables.
pub line_rule-IsExact : (p : ℕ) → p ≤ 65 → (r : LineData) × (get_rule p ≡ some r) × IsExact p r
line_rule-IsExact p le =
    test_rule_lem p (get_rule p) (all_below_lem test 66 all_pass p (omega arith))
