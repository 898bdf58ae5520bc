-- ===== src/Financial/Tests.antt =====
-- The theorems on src/FinancialMath.cpp at concrete amounts.
use trade_bot.Base.{arith, refl, some, true, ℕ, ◌*◌, ◌≡◌}
use trade_bot.Base.Int.{negsuc, pos, ◌+ℤ◌, ◌-ℤ◌, ◌<ℤ◌, ◌≤ℤ◌}
use trade_bot.Financial.Wide.{UInt128, divide_wide, multiply_wide, value}
use trade_bot.Financial.Wide.Product.{value-multiply_wide}
use trade_bot.Financial.Wide.Division.{Quotes, divide_wide-Quotes}
use trade_bot.Financial.Units.{
  checked_add, checked_subtract, magnitude, nearest_ties_away_from_zero, proportional_units,
  round_magnitude, scale_factor, scaled_product, scaled_ratio, signed_quotient, toward_zero,
  with_sign,
}
use trade_bot.Financial.Units.Sums.{checked_sums, representable}
use trade_bot.Financial.Units.Quotient.{and_then, round_quotient}
use trade_bot.Financial.Values.{
  Fraction, Money, Price, Quantity, apply_slippage, fee, notional, notional_before_fee, of_units,
  proportional, quantity_for_notional,
}
use trade_bot.Financial.Values.Budget.{fee-notional_before_fee, notional-quantity_for_notional}
use trade_bot.Financial.Values.Prices.{Slips, apply_slippage-Slips, proportional_share}
use trade_bot.Financial.Units.Signed.{
  absolute, below_zero, opposite, scaled_quotients, signed_quotient-round_quotient, signed_value,
}

abbrev word_max : ℕ
word_max = 18446744073709551615

value-multiply_wide_example : value (multiply_wide word_max word_max) ≡ word_max * word_max
value-multiply_wide_example = value-multiply_wide word_max word_max (omega arith) (omega arith)

abbrev numerator : UInt128
numerator = record { high = 2; low = 17 }

divide_wide-Quotes_example : Quotes (value numerator) 7 (divide_wide numerator 7)
divide_wide-Quotes_example =
    divide_wide-Quotes numerator 7 (omega arith) (omega arith) (omega arith) (omega arith)

signed_quotient-round_quotient_example :
    signed_quotient numerator 7 true nearest_ties_away_from_zero
    ≡ and_then (round_quotient nearest_ties_away_from_zero (value numerator) 7) (signed_value true)
signed_quotient-round_quotient_example =
    signed_quotient-round_quotient numerator 7 true nearest_ties_away_from_zero (omega arith)
      (omega arith) (omega arith) (omega arith)

checked_sums_example :
    (checked_add (pos 9223372036854775800) (pos 9)
      ≡ representable (pos 9223372036854775800 +ℤ pos 9))
    × (checked_subtract (pos 9223372036854775800) (pos 9)
        ≡ representable (pos 9223372036854775800 -ℤ pos 9))
checked_sums_example = checked_sums (pos 9223372036854775800) (pos 9) (omega arith) (omega arith)

scaled_quotients_example :
    (scaled_product (negsuc 4) (pos 150_000_000) toward_zero
      ≡ and_then
          (round_quotient toward_zero
            (absolute (negsuc 4) * absolute (pos 150_000_000))
            scale_factor)
          (signed_value (opposite (below_zero (negsuc 4)) (below_zero (pos 150_000_000)))))
    × (scaled_ratio (negsuc 4) (pos 3) toward_zero
        ≡ and_then
            (round_quotient toward_zero (absolute (negsuc 4) * scale_factor) (absolute (pos 3)))
            (signed_value (opposite (below_zero (negsuc 4)) (below_zero (pos 3)))))
    × (proportional_units (negsuc 4) (pos 150_000_000) (pos 3) toward_zero
        ≡ and_then
            (round_quotient toward_zero
              (absolute (negsuc 4) * absolute (pos 150_000_000))
              (absolute (pos 3)))
            (signed_value (
              opposite
                (opposite (below_zero (negsuc 4)) (below_zero (pos 150_000_000)))
                (below_zero (pos 3)))))
scaled_quotients_example =
    scaled_quotients (negsuc 4) (pos 150_000_000) (pos 3) toward_zero (omega arith) (omega arith)
      (omega arith) refl

-- A thousand units of money, a price of three.
abbrev budget : Money
budget = of_units (pos 100_000_000_000)

abbrev three : Price
three = of_units (pos 300_000_000)

abbrev third : Quantity
third = of_units (pos 33_333_333_333)

notional-quantity_for_notional_example :
    (cost : Money) × (notional three third nearest_ties_away_from_zero ≡ some cost)
    × (pos 0 ≤ℤ cost.units)
    × (cost.units ≤ℤ budget.units)
unfolding quantity_for_notional scaled_ratio signed_quotient divide_wide multiply_wide magnitude
    round_magnitude with_sign
notional-quantity_for_notional_example =
    notional-quantity_for_notional budget three third (omega arith) (omega arith) refl

-- A fee of a tenth of a percent.
abbrev fee_rate : Fraction
fee_rate = of_units (pos 100_000)

abbrev net : Money
net = of_units (pos 99_900_099_900)

fee-notional_before_fee_example :
    (charge : Money) × (fee net fee_rate nearest_ties_away_from_zero ≡ some charge)
    × (pos 0 ≤ℤ charge.units)
    × (net.units +ℤ charge.units ≤ℤ budget.units)
unfolding notional_before_fee checked_add ◌+ℤ◌ ◌-ℤ◌ scaled_ratio signed_quotient divide_wide
    multiply_wide magnitude round_magnitude with_sign
fee-notional_before_fee_example =
    fee-notional_before_fee budget fee_rate net (omega arith) (omega arith) refl

apply_slippage-Slips_example :
    (pos 0 <ℤ pos 300_150_000) × Slips true (pos 300_000_000) (pos 300_150_000)
unfolding apply_slippage ◌+ℤ◌ ◌-ℤ◌ scaled_product signed_quotient divide_wide multiply_wide
    magnitude round_magnitude with_sign
apply_slippage-Slips_example =
    apply_slippage-Slips three (of_units (pos 50_000)) true nearest_ties_away_from_zero
      (of_units (pos 300_150_000)) (omega arith) refl

proportional_share_example :
    ((cost : Money) × (proportional
          (of_units (pos 7))
          (of_units (pos 1))
          (of_units (pos 3))
          nearest_ties_away_from_zero
        ≡ some cost)
      × (pos 0 ≤ℤ cost.units)
      × (cost.units ≤ℤ pos 7))
    × (proportional (of_units (pos 7)) (of_units (pos 3)) (of_units (pos 3)) toward_zero
        ≡ some (of_units (pos 7)))
proportional_share_example =
    proportional_share (of_units (pos 7)) (of_units (pos 1)) (of_units (pos 3)) toward_zero
      (omega arith) (omega arith) (omega arith) (omega arith) (omega arith) (omega arith)
