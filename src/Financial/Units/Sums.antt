-- ===== src/Financial/Units/Sums.antt =====
-- The checked sum and difference are exact, or nothing where 64 bits cannot hold them.
use trade_bot.Base.{Option, none, some, ◌≡◌, arith, if◌then◌else◌, ◌&&◌}
use trade_bot.Base.Int.{ℤ, ◌+ℤ◌, ◌-ℤ◌, leb_ℤ, int64_max, int64_min, IsInt64, +ℤ_parts, -ℤ_parts}
use trade_bot.Financial.Units.{checked_add, checked_subtract}

-- A value, if it is one of `std::int64_t`.
abbrev pub representable : ℤ → Option ℤ
representable a = if leb_ℤ int64_min a && leb_ℤ a int64_max then some a else none

-- For 64-bit operands, the guards of the checked sum and the checked difference pass exactly when the sum or the
-- difference of the integers fits in 64 bits, and the result is then that integer.
pub checked_sums :
    (lhs rhs : ℤ)
    → IsInt64 lhs
    → IsInt64 rhs
    → (checked_add lhs rhs ≡ representable (lhs +ℤ rhs))
      × (checked_subtract lhs rhs ≡ representable (lhs -ℤ rhs))
unfolding checked_add checked_subtract
checked_sums lhs rhs h k = (
  ground (arith, +ℤ_parts lhs rhs, -ℤ_parts int64_max rhs, -ℤ_parts int64_min rhs),
  ground (arith, -ℤ_parts lhs rhs, +ℤ_parts int64_max rhs, +ℤ_parts int64_min rhs),
)
