-- ===== src/Double.antt =====
-- The arithmetic of `double` as an interface: the operations the code calls, with no law assumed.
-- `of_ratio n d` is the literal or the constant quotient `n / d`. Functions of the C library
-- (`tanh`, `abs`) are fields too. `almost_equal` is source/utilities/almost_equal.hpp.
use dgswemv.Prelude.{ℕ, Bool, true, if◌then◌else◌, ◌+◌, ◌*◌, ◌-◌, ltb, ◌^◌, ◌/◌}

pub record Double (D : Type 0) : Type 0 where
  pub of_ratio : ℕ → ℕ → D
  pub plus : D → D → D
  pub minus : D → D → D
  pub times : D → D → D
  pub quotient : D → D → D
  pub less : D → D → Bool
  pub abs : D → D
  pub tanh : D → D

module _ {D : Type 0} ⦃d : Double D⦄ where
  open d use {of_ratio, plus, minus, times, quotient, less, abs}

  -- `std::max(a, b)`
  abbrev pub max_of : D → D → D
  max_of a b = if less a b then b else a

  -- `std::numeric_limits<double>::epsilon() * 100`
  abbrev pub tolerance : D
  tolerance = times (of_ratio 1 (2 ^ 52)) (of_ratio 100 1)

  unfoldable pub almost_equal : D → D → Bool
  almost_equal a b =
      if less (max_of (abs a) (abs b)) tolerance
      then true
      else less (abs (minus a b))
          (times (times (max_of (abs a) (abs b)) (of_ratio 1 (2 ^ 52))) (of_ratio 100 1))

-- Fixed point arithmetic with 60 binary digits on numbers that are not negative: a value of the
-- interface, for concrete inputs.
abbrev pub one_of : ℕ
one_of = 2 ^ 60

instance abbrev pub fixed_double : Double ℕ
fixed_double = record {
  of_ratio = λ n d. n * one_of / d;
  plus = ◌+◌;
  minus = ◌-◌;
  times = λ a b. a * b / one_of;
  quotient = λ a b. a * one_of / b;
  less = ltb;
  abs = λ a. a;
  tanh = λ a. if ltb a one_of then a else one_of;
}
