-- ===== src/Financial/Values.antt =====
-- The fixed-point values of include/FinancialMath.hpp and the operations on them, as
-- src/FinancialMath.cpp composes them. An optional argument's default is written at each call.
pub mod Nonnegative
pub mod Budget
pub mod Prices
pub mod Exact
use trade_bot.Base.{Bool, Option, none, some, ◌||◌, not, if◌then◌else◌}
use trade_bot.Base.Int.{ℤ, pos, ◌+ℤ◌, ◌-ℤ◌, ltb_ℤ, leb_ℤ}
use trade_bot.Financial.Units.{
  Rounding, scale_factor, is_negative, is_positive, checked_add, checked_subtract, scaled_product,
  scaled_ratio, proportional_units,
}

-- The tags that keep prices, quantities and money apart.
pub data Tag : Type 0 where
  price quantity money fraction : Tag

pub record Value (t : Tag) : Type 0 where
  pub units : ℤ

abbrev pub Price : Type 0
Price = Value price

abbrev pub Quantity : Type 0
Quantity = Value quantity

abbrev pub Money : Type 0
Money = Value money

abbrev pub Fraction : Type 0
Fraction = Value fraction

abbrev pub of_units : {t : Tag} → ℤ → Value t
of_units a = record { units = a }

-- `units.has_value() ? std::optional{Value{*units}} : std::nullopt`.
abbrev pub wrap : {t : Tag} → Option ℤ → Option (Value t)
wrap none = none
wrap (some a) = some (of_units a)

unfoldable pub add : {t : Tag} → Value t → Value t → Option (Value t)
add lhs rhs = wrap (checked_add lhs.units rhs.units)

unfoldable pub subtract : {t : Tag} → Value t → Value t → Option (Value t)
subtract lhs rhs = wrap (checked_subtract lhs.units rhs.units)

unfoldable pub notional : Price → Quantity → Rounding → Option Money
notional price_value quantity_value rounding =
    wrap (scaled_product price_value.units quantity_value.units rounding)

unfoldable pub fee : Money → Fraction → Rounding → Option Money
fee notional_value rate rounding = wrap (scaled_product notional_value.units rate.units rounding)

abbrev pub if_positive : {t : Tag} → Option ℤ → Option (Value t)
if_positive none = none
if_positive (some a) = if is_positive a then some (of_units a) else none

unfoldable pub apply_slippage : Price → Fraction → Bool → Rounding → Option Price
apply_slippage market_price slippage_rate buy_side rounding =
    if not (is_positive market_price.units)
      || is_negative slippage_rate.units
      || leb_ℤ (pos scale_factor) slippage_rate.units
    then none
    else let multiplier : ℤ =
        if buy_side
        then pos scale_factor +ℤ slippage_rate.units
        else pos scale_factor -ℤ slippage_rate.units in
      if_positive (scaled_product market_price.units multiplier rounding)

unfoldable pub quantity_for_notional : Money → Price → Rounding → Option Quantity
quantity_for_notional notional_budget price_value rounding =
    if is_negative notional_budget.units || not (is_positive price_value.units)
    then none
    else wrap (scaled_ratio notional_budget.units price_value.units rounding)

-- `scaledRatio` by a denominator that was itself checked.
abbrev pub ratio_by : ℤ → Rounding → Option ℤ → Option Money
ratio_by total rounding none = none
ratio_by total rounding (some denominator) =
    if leb_ℤ denominator (pos 0) then none else wrap (scaled_ratio total denominator rounding)

unfoldable pub notional_before_fee : Money → Fraction → Rounding → Option Money
notional_before_fee total_budget fee_rate rounding =
    if is_negative total_budget.units || is_negative fee_rate.units
    then none
    else ratio_by total_budget.units rounding (checked_add (pos scale_factor) fee_rate.units)

unfoldable pub average_price : Money → Quantity → Rounding → Option Price
average_price cost_basis quantity_value rounding =
    if is_negative cost_basis.units || not (is_positive quantity_value.units)
    then none
    else wrap (scaled_ratio cost_basis.units quantity_value.units rounding)

unfoldable pub proportional : Money → Quantity → Quantity → Rounding → Option Money
proportional total part whole rounding =
    if is_negative part.units || not (is_positive whole.units) || ltb_ℤ whole.units part.units
    then none
    else wrap (proportional_units total.units part.units whole.units rounding)
