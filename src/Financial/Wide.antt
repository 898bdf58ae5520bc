-- ===== src/Financial/Wide.antt =====
-- The 128-bit product and quotient of src/FinancialMath.cpp. A `std::uint64_t` is a number below
-- 2 ^ 64 with the wrap-around written out; the parts that `|` joins there have no bit in common.
pub mod Product
pub mod Division
use trade_bot.Base.{
  ℕ, zero, suc, ◌+◌, ◌-◌, ◌*◌, ◌/◌, ◌%◌, ◌^◌, Bool, true, false, Option, none, some, ◌||◌, leb,
  ◌==◌, if◌then◌else◌,
}

pub record UInt128 : Type 0 where
  pub high : ℕ
  pub low : ℕ

-- The number that the two words stand for.
abbrev pub value : UInt128 → ℕ
value n = n.high * 2 ^ 64 + n.low

unfoldable pub multiply_wide : ℕ → ℕ → UInt128
multiply_wide lhs rhs =
    let lhs_low : ℕ = lhs % 2 ^ 32 in
    let lhs_high : ℕ = lhs / 2 ^ 32 in
    let rhs_low : ℕ = rhs % 2 ^ 32 in
    let rhs_high : ℕ = rhs / 2 ^ 32 in
    let low_low : ℕ = lhs_low * rhs_low % 2 ^ 64 in
    let low_high : ℕ = lhs_low * rhs_high % 2 ^ 64 in
    let high_low : ℕ = lhs_high * rhs_low % 2 ^ 64 in
    let high_high : ℕ = lhs_high * rhs_high % 2 ^ 64 in
    let middle : ℕ = (low_low / 2 ^ 32 + low_high % 2 ^ 32 + high_low % 2 ^ 32) % 2 ^ 64 in
    record {
      high = (high_high + low_high / 2 ^ 32 + high_low / 2 ^ 32 + middle / 2 ^ 32) % 2 ^ 64;
      low = middle * 2 ^ 32 % 2 ^ 64 + low_low % 2 ^ 32;
    }

unfoldable pub bit_at : UInt128 → ℕ → Bool
bit_at n index =
    if leb 64 index then n.high / 2 ^ (index - 64) % 2 == 1 else n.low / 2 ^ index % 2 == 1

-- `quotient |= (1ULL << bit)`, for a bit below 64.
unfoldable pub set_bit : ℕ → ℕ → ℕ
set_bit quotient bit = if quotient / 2 ^ bit % 2 == 1 then quotient else quotient + 2 ^ bit

-- One round of the loop: the next remainder, and the bit of the quotient.
unfoldable pub divide_step : UInt128 → ℕ → ℕ → ℕ → ℕ × Bool
divide_step numerator denominator bit remainder =
    let shifted : ℕ = remainder * 2 % 2 ^ 64 + (if bit_at numerator bit then 1 else 0) in
    if (remainder / 2 ^ 63 == 1) || leb denominator shifted
    then ((shifted + 2 ^ 64 - denominator) % 2 ^ 64, true)
    else (shifted, false)

-- The rounds for the bits below the first argument; the result is the quotient and the remainder.
unfoldable pub divide_loop : ℕ → UInt128 → ℕ → ℕ → ℕ → Option (ℕ × ℕ)
divide_loop zero numerator denominator quotient remainder = some (quotient, remainder)
divide_loop (suc bit) numerator denominator quotient remainder =
    let (shifted, quotient_bit) = divide_step numerator denominator bit remainder in
    elim quotient_bit [
      | true ↦ elim (leb 64 bit) [
        | true ↦ none
        | false ↦ divide_loop bit numerator denominator (set_bit quotient bit) shifted
      ]
      | false ↦ divide_loop bit numerator denominator quotient shifted
    ]

unfoldable pub divide_wide : UInt128 → ℕ → Option (ℕ × ℕ)
unfolding divide_loop divide_step bit_at set_bit
divide_wide numerator denominator =
    if denominator == 0 then none else divide_loop 128 numerator denominator 0 0
