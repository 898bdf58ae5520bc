-- ===== src/Financial/Units.antt =====
-- The checked operations on 64-bit units of src/FinancialMath.cpp. A `std::int64_t` is an integer
-- with its range in `IsInt64`; no operation below leaves that range before it is checked.
pub mod Quotient
pub mod Sums
pub mod Bounds
pub mod Signed
use trade_bot.Base.{
  ℕ, suc, ◌+◌, ◌-◌, ◌*◌, ◌/◌, ◌%◌, ◌^◌, Bool, true, false, Option, none, some, ◌||◌, ◌&&◌, not, ltb,
  leb, ◌==◌, if◌then◌else◌,
}
use trade_bot.Base.Int.{ℤ, pos, negsuc, ◌+ℤ◌, ◌-ℤ◌, ltb_ℤ, eqb_ℤ, int64_max, int64_min}
use trade_bot.Financial.Wide.{UInt128, multiply_wide, divide_wide}

pub data Rounding : Type 0 where
  toward_zero reject_unaligned nearest_ties_away_from_zero : Rounding

-- `SCALE` and `SCALE_FACTOR`.
abbrev pub scale : ℕ
scale = 8

abbrev pub scale_factor : ℕ
scale_factor = 100_000_000

abbrev pub is_negative : ℤ → Bool
is_negative a = ltb_ℤ a (pos 0)

abbrev pub is_positive : ℤ → Bool
is_positive a = ltb_ℤ (pos 0) a

abbrev pub is_zero : ℤ → Bool
is_zero a = eqb_ℤ a (pos 0)

-- `a != b` on truth values.
abbrev pub differ : Bool → Bool → Bool
differ true b = not b
differ false b = b

-- For a negative value, `-(value + 1)` is the argument of `negsuc`.
unfoldable pub magnitude : ℤ → ℕ
magnitude (pos n) = n
magnitude (negsuc n) = n + 1

-- The quotient after rounding; nothing where the rounding rejects it.
unfoldable pub round_magnitude : Rounding → ℕ → ℕ → ℕ → Option ℕ
round_magnitude toward_zero denominator quotient remainder = some quotient
round_magnitude reject_unaligned denominator quotient remainder =
    if remainder == 0 then some quotient else none
round_magnitude nearest_ties_away_from_zero denominator quotient remainder =
    if leb (denominator / 2 + denominator % 2) remainder
    then (if quotient == 18446744073709551615 then none else some (quotient + 1))
    else some quotient

-- The signed value of a magnitude, if it is one of `std::int64_t`.
unfoldable pub with_sign : Bool → ℕ → Option ℤ
with_sign negative quotient =
    let positive_limit : ℕ = 9223372036854775807 in
    let negative_limit : ℕ = positive_limit + 1 in
    if (not negative && ltb positive_limit quotient) || (negative && ltb negative_limit quotient)
    then none
    else if negative && quotient == negative_limit
    then some int64_min
    else some (if negative then pos 0 -ℤ pos quotient else pos quotient)

unfoldable pub signed_quotient : UInt128 → ℕ → Bool → Rounding → Option ℤ
signed_quotient numerator denominator negative rounding = elim (divide_wide numerator denominator) [
  | none ↦ none
  | some (quotient, remainder) ↦ elim (round_magnitude rounding denominator quotient remainder) [
    | none ↦ none
    | some rounded ↦ with_sign negative rounded
  ]
]

unfoldable pub checked_add : ℤ → ℤ → Option ℤ
checked_add lhs rhs =
    if (ltb_ℤ (pos 0) rhs && ltb_ℤ (int64_max -ℤ rhs) lhs)
      || (ltb_ℤ rhs (pos 0) && ltb_ℤ lhs (int64_min -ℤ rhs))
    then none
    else some (lhs +ℤ rhs)

unfoldable pub checked_subtract : ℤ → ℤ → Option ℤ
checked_subtract lhs rhs =
    if (ltb_ℤ (pos 0) rhs && ltb_ℤ lhs (int64_min +ℤ rhs))
      || (ltb_ℤ rhs (pos 0) && ltb_ℤ (int64_max +ℤ rhs) lhs)
    then none
    else some (lhs -ℤ rhs)

unfoldable pub scaled_product : ℤ → ℤ → Rounding → Option ℤ
scaled_product lhs rhs rounding =
    signed_quotient (multiply_wide (magnitude lhs) (magnitude rhs)) scale_factor
      (differ (is_negative lhs) (is_negative rhs)) rounding

unfoldable pub scaled_ratio : ℤ → ℤ → Rounding → Option ℤ
scaled_ratio numerator denominator rounding =
    if is_zero denominator
    then none
    else signed_quotient (multiply_wide (magnitude numerator) scale_factor) (magnitude denominator)
        (differ (is_negative numerator) (is_negative denominator)) rounding

unfoldable pub proportional_units : ℤ → ℤ → ℤ → Rounding → Option ℤ
proportional_units total part whole rounding =
    if is_zero whole
    then none
    else signed_quotient (multiply_wide (magnitude total) (magnitude part)) (magnitude whole)
        (differ (differ (is_negative total) (is_negative part)) (is_negative whole)) rounding
