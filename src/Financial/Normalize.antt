-- ===== src/Financial/Normalize.antt =====
-- The fixed-point values of a `double`, and back, in src/FinancialMath.cpp.
use trade_bot.Base.{Option, none, some, not, ◌||◌, ◌≡◌, arith, if◌then◌else◌}
use trade_bot.Base.Int.{ℤ, pos, int64_max, int64_min, IsInt64}
use trade_bot.Float.{FloatingPoint, CastsInRange}
use trade_bot.Financial.Units.{
  Rounding, toward_zero, reject_unaligned, nearest_ties_away_from_zero, scale_factor,
}
use trade_bot.Financial.Values.Nonnegative.{wrap-some, guard_passed}
use trade_bot.Financial.Values.{Tag, Value, Price, Quantity, Money, Fraction, wrap}

module _ (fp : FloatingPoint) where
  open fp use {
    Double, LongDouble, is_finite, widen, long_from_integer, to_integer, long_lt, long_difference,
    long_product, truncate, round, long_absolute, tolerance, epsilon, from_integer, quotient,
  }

  -- The larger of two, as `std::max` chooses it.
  abbrev pub long_max : LongDouble → LongDouble → LongDouble
  long_max a b = if long_lt a b then b else a

  -- The range check and the cast at the end of `normalize`.
  unfoldable pub in_int64 : LongDouble → Option ℤ
  in_int64 rounded =
      if long_lt rounded (long_from_integer int64_min)
        || long_lt (long_from_integer int64_max) rounded
      then none
      else some (to_integer rounded)

  -- `representationTolerance`.
  unfoldable pub representation_tolerance : LongDouble → LongDouble
  representation_tolerance scaled =
      long_max tolerance
        (long_product (long_product (long_absolute scaled) epsilon) (long_from_integer (pos 2)))

  unfoldable pub normalize : Double → Rounding → Option ℤ
  unfolding in_int64 representation_tolerance
  normalize value rounding =
      let scaled : LongDouble = long_product (widen value) (long_from_integer (pos scale_factor)) in
      if not (is_finite value) then none else elim rounding [
        | toward_zero ↦ in_int64 (truncate scaled)
        | reject_unaligned ↦
            if long_lt (representation_tolerance scaled)
              (long_absolute (long_difference scaled (round scaled)))
            then none
            else in_int64 (round scaled)
        | nearest_ties_away_from_zero ↦ in_int64 (round scaled)
      ]

  unfoldable pub normalized : {t : Tag} → Double → Rounding → Option (Value t)
  unfolding normalize
  normalized value rounding = wrap (normalize value rounding)

  abbrev pub price : Double → Rounding → Option Price
  price value rounding = normalized value rounding

  abbrev pub quantity : Double → Rounding → Option Quantity
  quantity value rounding = normalized value rounding

  abbrev pub money : Double → Rounding → Option Money
  money value rounding = normalized value rounding

  abbrev pub fraction : Double → Rounding → Option Fraction
  fraction value rounding = normalized value rounding

  -- `Value::toDouble`.
  unfoldable pub to_double : {t : Tag} → Value t → Double
  to_double v = quotient (from_integer v.units) (from_integer (pos scale_factor))

  in_int64-IsInt64 : CastsInRange fp → (x : LongDouble) (a : ℤ) → in_int64 x ≡ some a → IsInt64 a
  unfolding in_int64
  in_int64-IsInt64 laws x a h = ground (arith, laws.in_range x)

  pub normalize-IsInt64 :
      CastsInRange fp
      → (value : Double) (rounding : Rounding) (a : ℤ) → normalize value rounding ≡ some a
      → IsInt64 a
  unfolding normalize
  normalize-IsInt64 laws value toward_zero a h =
      in_int64-IsInt64 laws _ a (guard_passed (not (is_finite value)) _ a h).1
  normalize-IsInt64 laws value reject_unaligned a h =
      in_int64-IsInt64 laws _ a
        (guard_passed _ _ a (guard_passed (not (is_finite value)) _ a h).1).1
  normalize-IsInt64 laws value nearest_ties_away_from_zero a h =
      in_int64-IsInt64 laws _ a (guard_passed (not (is_finite value)) _ a h).1

  pub normalized-IsInt64 :
      {t : Tag}
      → CastsInRange fp
      → (value : Double) (rounding : Rounding) (v : Value t) → normalized value rounding ≡ some v
      → IsInt64 v.units
  unfolding normalized
  normalized-IsInt64 laws value rounding v h =
      normalize-IsInt64 laws value rounding v.units (wrap-some _ v h)
