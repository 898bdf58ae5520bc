-- ===== src/Financial/Values/Budget.antt =====
-- What the operations on values promise about budgets: an amount sized by
-- `quantityForNotional`, `notionalBeforeFee` or `proportional` never exceeds what it was sized from.
use native.Mathlib.Decide.{dec_le}
use trade_bot.Base.{
  ℕ, ◌+◌, ◌*◌, ◌≤◌, ◌<◌, ◌≡◌, none, some, arith, Option, ap, ◌-◌, inl, inr, ◌⊎◌, ◌||◌,
}
use trade_bot.Base.Int.{ℤ, pos, negsuc, ◌≤ℤ◌, ◌+ℤ◌, leb_ℤ, IsInt64, +ℤ_parts}
use trade_bot.Financial.Units.{
  toward_zero, nearest_ties_away_from_zero, scaled_ratio, scale_factor, checked_add, is_negative,
}
use trade_bot.Financial.Units.Sums.{checked_sums}
use trade_bot.Financial.Values.{
  Money, Quantity, Price, Fraction, of_units, notional, fee, quantity_for_notional,
  notional_before_fee, wrap, ratio_by,
}
use trade_bot.Financial.Values.Nonnegative.{product_within, ratio_floor, wrap-some, guard_passed}

affordable :
    (n p : ℕ) (q : Quantity)
    → IsInt64 (pos n)
    → IsInt64 (pos p)
    → 0 < p
    → wrap (scaled_ratio (pos n) (pos p) toward_zero) ≡ some q
    → (cost : Money) × (notional (of_units (pos p)) q nearest_ties_away_from_zero ≡ some cost)
      × (pos 0 ≤ℤ cost.units)
      × (cost.units ≤ℤ pos n)
unfolding notional
affordable n p q ha hx hp e =
    let (k, sign, floor, range) = ratio_floor n p q.units ha hx hp (wrap-some _ q e) in
    let (m, product, small) =
      product_within p k n hx (omega (arith, range)) ha (omega (arith, floor)) in
    (of_units (pos m), rw (sign, product), omega arith, omega (arith, small))

affordable_signs :
    (a x : ℤ) (q : Quantity)
    → IsInt64 a
    → IsInt64 x
    → quantity_for_notional (of_units a) (of_units x) toward_zero ≡ some q
    → (cost : Money) × (notional (of_units x) q nearest_ties_away_from_zero ≡ some cost)
      × (pos 0 ≤ℤ cost.units)
      × (cost.units ≤ℤ a)
unfolding quantity_for_notional
affordable_signs (pos n) (pos p) q ha hx e =
    let (open_guard, sized) = guard_passed _ _ q e in affordable n p q ha hx (ground arith) sized
affordable_signs (pos n) (negsuc p) q ha hx e = absurd (ground arith)
affordable_signs (negsuc n) x q ha hx e = absurd (ground arith)

-- For 64-bit units: whatever quantity a budget is turned into at a price, with the default rounding,
-- the notional of
-- that quantity at that price, again with the default rounding, exists, is not negative and does
-- not exceed the budget.
pub notional-quantity_for_notional :
    (budget : Money) (at_price : Price) (q : Quantity)
    → IsInt64 budget.units
    → IsInt64 at_price.units
    → quantity_for_notional budget at_price toward_zero ≡ some q
    → (cost : Money) × (notional at_price q nearest_ties_away_from_zero ≡ some cost)
      × (pos 0 ≤ℤ cost.units)
      × (cost.units ≤ℤ budget.units)
notional-quantity_for_notional budget at_price q ha hx e =
    affordable_signs budget.units at_price.units q ha hx e

after_fee :
    (n f k : ℕ) (x : ℤ)
    → IsInt64 (pos n)
    → IsInt64 (pos f)
    → x ≡ pos k
    → k * (scale_factor + f) ≤ n * scale_factor
    → (charge : Money) × (fee (of_units x) (of_units (pos f)) nearest_ties_away_from_zero
        ≡ some charge)
      × (pos 0 ≤ℤ charge.units)
      × (x +ℤ charge.units ≤ℤ pos n)
unfolding fee
after_fee n f k x ha hf sign floor =
    let within : k ≤ n = omega (arith, floor) in
    let (m, product, small) =
      product_within k f (n - k) (omega (arith, within)) (omega arith) (omega arith)
        (omega (arith, floor, within)) in
    rw sign (
      of_units (pos m),
      ap wrap product,
      omega arith,
      omega (arith, +ℤ_parts (pos k) (pos m), small, within),
    )

-- The divisor of `notionalBeforeFee`, when it fits.
divisor_cases :
    (f : ℕ)
    → IsInt64 (pos f)
    → ((checked_add (pos scale_factor) (pos f) ≡ some (pos (scale_factor + f)))
        × (scale_factor + f ≤ 9223372036854775807))
      ⊎ (checked_add (pos scale_factor) (pos f) ≡ none)
unfolding ◌+ℤ◌
divisor_cases f h =
    let sum = (checked_sums (pos scale_factor) (pos f) (omega arith) h).0 in
    elim (dec_le (scale_factor + f) 9223372036854775807) [
      | yes fits ↦ inl (rw sum (ground arith), fits)
      | no large ↦ inr (rw sum (ground arith))
    ]

after_fee_ratio :
    (n f : ℕ) (net : Money) (divisor : Option ℤ)
    → IsInt64 (pos n)
    → IsInt64 (pos f)
    → ((divisor ≡ some (pos (scale_factor + f))) × (scale_factor + f ≤ 9223372036854775807))
      ⊎ (divisor ≡ none)
    → ratio_by (pos n) toward_zero divisor ≡ some net
    → (charge : Money) × (fee net (of_units (pos f)) nearest_ties_away_from_zero ≡ some charge)
      × (pos 0 ≤ℤ charge.units)
      × (net.units +ℤ charge.units ≤ℤ pos n)
after_fee_ratio n f net none ha hf c e = cc
after_fee_ratio n f net (some d) ha hf (inr absent) e = cc
after_fee_ratio n f net (some d) ha hf (inl (divisor, fits)) e =
    let same : d ≡ pos (scale_factor + f) = cc in
    let e' : ratio_by (pos n) toward_zero (some (pos (scale_factor + f))) ≡ some net =
      rw same at e in
    let floor = ratio_floor n (scale_factor + f) net.units ha (omega arith) (omega arith) (
      wrap-some _ net
        (guard_passed (leb_ℤ (pos (scale_factor + f)) (pos 0))
          (wrap (scaled_ratio (pos n) (pos (scale_factor + f)) toward_zero)) net e').1) in
    after_fee n f floor.0 net.units ha hf floor.1 floor.2

after_fee_signs :
    (a f : ℤ) (net : Money)
    → IsInt64 a
    → IsInt64 f
    → notional_before_fee (of_units a) (of_units f) toward_zero ≡ some net
    → (charge : Money) × (fee net (of_units f) nearest_ties_away_from_zero ≡ some charge)
      × (pos 0 ≤ℤ charge.units)
      × (net.units +ℤ charge.units ≤ℤ a)
unfolding notional_before_fee
after_fee_signs (pos n) (pos f) net ha hf e =
    after_fee_ratio n f net (checked_add (pos scale_factor) (pos f)) ha hf (divisor_cases f hf)
      (guard_passed (is_negative (pos n) || is_negative (pos f)) _ net e).1
after_fee_signs (pos n) (negsuc f) net ha hf e = absurd (ground arith)
after_fee_signs (negsuc n) f net ha hf e = absurd (ground arith)

-- For 64-bit units: whatever amount a total budget leaves before the fee, with the default rounding,
-- the fee on that amount, with the default rounding, exists, is not negative, and the amount and its fee together
-- do not exceed the budget.
pub fee-notional_before_fee :
    (total : Money) (rate : Fraction) (net : Money)
    → IsInt64 total.units
    → IsInt64 rate.units
    → notional_before_fee total rate toward_zero ≡ some net
    → (charge : Money) × (fee net rate nearest_ties_away_from_zero ≡ some charge)
      × (pos 0 ≤ℤ charge.units)
      × (net.units +ℤ charge.units ≤ℤ total.units)
fee-notional_before_fee total rate net ha hf e = after_fee_signs total.units rate.units net ha hf e
