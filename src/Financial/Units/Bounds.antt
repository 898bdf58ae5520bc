-- ===== src/Financial/Units/Bounds.antt =====
-- Bounds on a rounded quotient of numbers, which hold under every rounding.
use native.Mathlib.Nat.{
  le-div_iff_mul-le, div-lt_iff_lt-mul, mul-div_left, mul-mod_left, div-eq_of_lt-le,
}
use trade_bot.Base.{ℕ, ◌+◌, ◌*◌, ◌/◌, ◌≤◌, ◌<◌, ◌≡◌, false, some, arith, refl}
use trade_bot.Base.Int.{ℤ, pos}
use trade_bot.Financial.Units.{
  Rounding, toward_zero, reject_unaligned, nearest_ties_away_from_zero, with_sign,
}
use trade_bot.Financial.Units.Quotient.{round_quotient}

div-le : (v d k : ℕ) → 0 < d → v ≤ k * d → v / d ≤ k
div-le v d k h e =
    omega (arith, (div-lt_iff_lt-mul {k = d} {x = v} {y = k + 1} h).1 (omega (arith, e)))

le-div : (v d k : ℕ) → 0 < d → k * d ≤ v → k ≤ v / d
le-div v d k h e = (le-div_iff_mul-le h).1 e

-- A quotient of at most `k` rounds to at most `k`.
pub round_quotient-le :
    (rounding : Rounding) (v d k m : ℕ)
    → 0 < d
    → v ≤ k * d
    → round_quotient rounding v d ≡ some m
    → m ≤ k
round_quotient-le toward_zero v d k m h e r = ground (arith, div-le v d k h e)
round_quotient-le reject_unaligned v d k m h e r = ground (arith, div-le v d k h e)
round_quotient-le nearest_ties_away_from_zero v d k m h e r =
    let below : 2 * v + d < (k + 1) * (2 * d) = omega (arith, e) in
    let lt = (div-lt_iff_lt-mul {k = 2 * d} {x = 2 * v + d} {y = k + 1} (omega arith)).1 below in
    ground (arith, lt)

-- A quotient of at least `k` rounds to at least `k`.
pub le-round_quotient :
    (rounding : Rounding) (v d k m : ℕ)
    → 0 < d
    → k * d ≤ v
    → round_quotient rounding v d ≡ some m
    → k ≤ m
le-round_quotient toward_zero v d k m h e r = ground (arith, le-div v d k h e)
le-round_quotient reject_unaligned v d k m h e r = ground (arith, le-div v d k h e)
le-round_quotient nearest_ties_away_from_zero v d k m h e r =
    let above = le-div (2 * v + d) (2 * d) k (omega arith) (omega (arith, e)) in
    ground (arith, above)

-- Rounding to the nearest number, and downwards, always gives a number.
pub nearest_total : (v d : ℕ) → (m : ℕ) × (round_quotient nearest_ties_away_from_zero v d ≡ some m)
nearest_total v d = ((2 * v + d) / (2 * d), refl)

-- A whole quotient is not changed by any rounding.
pub round_quotient-mul :
    (rounding : Rounding) (k d : ℕ) → 0 < d → round_quotient rounding (k * d) d ≡ some k
round_quotient-mul toward_zero k d h = rw (mul-div_left k h)
round_quotient-mul reject_unaligned k d h = rw (mul-mod_left k d, mul-div_left k h)
round_quotient-mul nearest_ties_away_from_zero k d h =
    rw (div-eq_of_lt-le {k = k} (2 * d) {m = 2 * (k * d) + d} (omega arith) (omega arith))

pub with_sign-false : (m : ℕ) → m ≤ 9223372036854775807 → with_sign false m ≡ some (pos m)
unfolding with_sign
with_sign-false m h = ground arith

pub with_sign-pos : (m : ℕ) (a : ℤ) → with_sign false m ≡ some a → a ≡ pos m
unfolding with_sign
with_sign-pos m a h = ground arith

pub with_sign-le : (m : ℕ) (a : ℤ) → with_sign false m ≡ some a → m ≤ 9223372036854775807
unfolding with_sign
with_sign-le m a h = ground arith
