-- ===== src/Float/Whole.antt =====
-- Whole numbers in the place of `double`, for the tests.
use trade_bot.Base.{arith, true, ◌*◌, ◌+◌, ◌/◌}
use trade_bot.Base.Int.{leb_ℤ, ltb_ℤ, neg_part, pos, pos_part, sub_ℕ, ℤ, ◌+ℤ◌, ◌-ℤ◌}
use trade_bot.Float.{CastsInRange, FloatingPoint}

abbrev multiplied : ℤ → ℤ → ℤ
multiplied a b =
    sub_ℕ (pos_part a * pos_part b + neg_part a * neg_part b)
      (pos_part a * neg_part b + neg_part a * pos_part b)

-- The quotient by a positive number, towards zero.
abbrev divided : ℤ → ℤ → ℤ
divided a b = sub_ℕ (pos_part a / pos_part b) (neg_part a / pos_part b)

abbrev pub whole : FloatingPoint
whole = record {
  Double = ℤ;
  LongDouble = ℤ;
  nought = pos 0;
  lt = ltb_ℤ;
  le = leb_ℤ;
  sum = λ a b. a +ℤ b;
  difference = λ a b. a -ℤ b;
  product = multiplied;
  quotient = divided;
  from_integer = λ a. a;
  is_finite = λ a. true;
  absolute = λ a. pos (pos_part a + neg_part a);
  widen = λ a. a;
  long_from_integer = λ a. a;
  to_integer = λ a. a;
  long_lt = ltb_ℤ;
  long_difference = λ a b. a -ℤ b;
  long_product = multiplied;
  truncate = λ a. a;
  round = λ a. a;
  long_absolute = λ a. pos (pos_part a + neg_part a);
  tolerance = pos 0;
  epsilon = pos 0;
}

pub whole-CastsInRange : CastsInRange whole
whole-CastsInRange = record { in_range = λ x h k. ground arith }
