-- ===== src/Gate7/Price.antt =====
-- The prices of src/CTraderGate7Proof.cpp: a wire price counts units of 10^-5 and is brought to the
-- digits of the symbol.
pub mod Rounding
use trade_bot.Base.{
  ℕ, zero, suc, ◌+◌, ◌-◌, ◌*◌, ◌/◌, ◌%◌, ◌^◌, Bool, true, false, Option, none, some, ◌||◌, ◌&&◌,
  ltb, leb, ◌==◌, if◌then◌else◌,
}
use trade_bot.Base.Int.{ℤ, pos, negsuc, ◌-ℤ◌, ltb_ℤ}
use trade_bot.Broker.{Decimal64, max_scale}
use trade_bot.Financial.Units.{magnitude, is_negative, is_positive}

-- `std::numeric_limits<std::int64_t>::max()` as an unsigned number.
abbrev pub max_int64 : ℕ
max_int64 = 9223372036854775807

-- The loop that multiplies by ten and stops before an overflow.
unfoldable pub grow : ℕ → ℕ → Option ℕ
grow zero factor = some factor
grow (suc n) factor =
    let rest = grow n (factor * 10) in if ltb (max_int64 / 10) factor then none else rest

-- The loop that multiplies by ten.
unfoldable pub tens : ℕ → ℕ → ℕ
tens zero factor = factor
tens (suc n) factor = tens n (factor * 10)

-- `units * factor`.
unfoldable pub times : ℤ → ℕ → ℤ
times (pos n) factor = pos (n * factor)
times (negsuc n) factor = pos 0 -ℤ pos (suc n * factor)

unfoldable pub scale_up : ℤ → ℕ → Option ℤ
unfolding times
scale_up units factor =
    if is_positive units && ltb_ℤ (pos (max_int64 / factor)) units
    then none
    else if is_negative units && ltb_ℤ units (pos 0 -ℤ pos ((max_int64 + 1) / factor))
    then none
    else some (times units factor)

-- The quotient rounded half away from zero.
unfoldable pub round_quotient_up : ℕ → ℕ → Option ℕ
round_quotient_up size factor =
    if leb factor (size % factor * 2)
    then (if (size / factor) == max_int64 then none else some (size / factor + 1))
    else some (size / factor)

unfoldable pub scale_down : ℤ → ℕ → Option ℤ
unfolding round_quotient_up magnitude
scale_down units factor = elim (round_quotient_up (magnitude units) factor) [
  | none ↦ none
  | some quotient ↦
      if ltb max_int64 quotient
      then none
      else some (if is_negative units then pos 0 -ℤ pos quotient else pos quotient)
]

unfoldable pub normalize_signed_scale5 : ℤ → ℤ → Option ℤ
unfolding grow tens scale_up scale_down
normalize_signed_scale5 units (negsuc d) = none
normalize_signed_scale5 units (pos d) =
    if ltb max_scale d
    then none
    else if d == 5
    then some units
    else if ltb 5 d
    then elim (grow (d - 5) 1) [ none ↦ none | some factor ↦ scale_up units factor ]
    else scale_down units (tens (5 - d) 1)

unfoldable pub normalize_spot_price : ℕ → ℕ → Option Decimal64
unfolding normalize_signed_scale5
normalize_spot_price raw_wire digits =
    if (raw_wire == 0) || ltb max_int64 raw_wire
    then none
    else elim (normalize_signed_scale5 (pos raw_wire) (pos digits)) [
      | none ↦ none
      | some normalized ↦ some (record { units = normalized; scale = digits })
    ]
