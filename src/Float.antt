-- ===== src/Float.antt =====
-- What the program does with `double` and `long double`. The two types and their operations are
-- parameters of the definitions that use them; their laws are hypotheses where a statement needs them.
pub mod Whole
use trade_bot.Base.{Bool, false, ◌≡◌}
use trade_bot.Base.Int.{ℤ, IsInt64, int64_min, int64_max}

pub record FloatingPoint : Type 1 where
  pub Double : Type 0
  pub LongDouble : Type 0
  -- `0.0`, the comparisons and the arithmetic of `double`.
  pub nought : Double
  pub lt : Double → Double → Bool
  pub le : Double → Double → Bool
  pub sum : Double → Double → Double
  pub difference : Double → Double → Double
  pub product : Double → Double → Double
  pub quotient : Double → Double → Double
  -- `static_cast<double>` of a `std::int64_t`, `std::isfinite`, and `std::fabs`.
  pub from_integer : ℤ → Double
  pub is_finite : Double → Bool
  pub absolute : Double → Double
  -- The casts to and from `long double`, its comparison and its arithmetic.
  pub widen : Double → LongDouble
  pub long_from_integer : ℤ → LongDouble
  pub to_integer : LongDouble → ℤ
  pub long_lt : LongDouble → LongDouble → Bool
  pub long_difference : LongDouble → LongDouble → LongDouble
  pub long_product : LongDouble → LongDouble → LongDouble
  pub truncate : LongDouble → LongDouble
  pub round : LongDouble → LongDouble
  pub long_absolute : LongDouble → LongDouble
  -- `1e-7L` and `std::numeric_limits<double>::epsilon()`.
  pub tolerance : LongDouble
  pub epsilon : LongDouble

-- The cast of a `long double` that is neither below the least nor above the greatest `std::int64_t`
-- is a `std::int64_t`.
pub record CastsInRange (fp : FloatingPoint) : Type 0 where
  pub in_range :
      (x : fp.LongDouble)
      → fp.long_lt x (fp.long_from_integer int64_min) ≡ false
      → fp.long_lt (fp.long_from_integer int64_max) x ≡ false
      → IsInt64 (fp.to_integer x)
