-- ===== src/Financial/Values/Nonnegative.antt =====
-- The operations of src/FinancialMath.cpp at units that are not negative.
use native.Mathlib.Nat.{div-mul-le_self}
use trade_bot.Base.{
  ℕ, ◌+◌, ◌*◌, ◌/◌, ◌≤◌, ◌<◌, ◌≡◌, Bool, true, false, none, some, arith, Option, refl, ◌∙◌, sym,
  if◌then◌else◌,
}
use trade_bot.Base.Int.{ℤ, pos, IsInt64}
use trade_bot.Financial.Units.{
  Rounding, toward_zero, nearest_ties_away_from_zero, with_sign, scaled_product, scaled_ratio,
  proportional_units, scale_factor, magnitude, is_negative, is_zero,
}
use trade_bot.Financial.Units.Quotient.{round_quotient, and_then, product_quotient}
use trade_bot.Financial.Units.Bounds.{
  round_quotient-le, with_sign-false, with_sign-pos, with_sign-le,
}
use trade_bot.Financial.Values.{Value, Tag, wrap}

pub not_negative : (n : ℕ) → is_negative (pos n) ≡ false
not_negative n = ground arith

-- The operations at units that are not negative.
pub scaled_product-pos :
    (a b : ℕ) (rounding : Rounding)
    → IsInt64 (pos a)
    → IsInt64 (pos b)
    → scaled_product (pos a) (pos b) rounding
      ≡ and_then (round_quotient rounding (a * b) scale_factor) (with_sign false)
unfolding scaled_product magnitude
scaled_product-pos a b rounding ha hb =
    rw (not_negative a, not_negative b)
      (product_quotient a b scale_factor false rounding (omega arith) (omega arith) (omega arith)
        (omega arith))

pub scaled_ratio-pos :
    (a c : ℕ) (rounding : Rounding)
    → IsInt64 (pos a)
    → IsInt64 (pos c)
    → 0 < c
    → scaled_ratio (pos a) (pos c) rounding
      ≡ and_then (round_quotient rounding (a * scale_factor) c) (with_sign false)
unfolding scaled_ratio magnitude
scaled_ratio-pos a c rounding ha hc h =
    let nonzero : is_zero (pos c) ≡ false = ground arith in
    rw (nonzero, not_negative a, not_negative c)
      (product_quotient a scale_factor c false rounding (omega arith) (omega arith) (omega arith)
        (omega arith))

pub proportional_units-pos :
    (a b c : ℕ) (rounding : Rounding)
    → IsInt64 (pos a)
    → IsInt64 (pos b)
    → IsInt64 (pos c)
    → 0 < c
    → proportional_units (pos a) (pos b) (pos c) rounding
      ≡ and_then (round_quotient rounding (a * b) c) (with_sign false)
unfolding proportional_units magnitude
proportional_units-pos a b c rounding ha hb hc h =
    let nonzero : is_zero (pos c) ≡ false = ground arith in
    rw (nonzero, not_negative a, not_negative b, not_negative c)
      (product_quotient a b c false rounding (omega arith) (omega arith) (omega arith)
        (omega arith))

-- A product of at most `k` units is some amount of at most `k`, when rounded to the nearest.
pub product_within :
    (a b k : ℕ)
    → IsInt64 (pos a)
    → IsInt64 (pos b)
    → IsInt64 (pos k)
    → a * b ≤ k * scale_factor
    → (m : ℕ) × (scaled_product (pos a) (pos b) nearest_ties_away_from_zero ≡ some (pos m))
      × (m ≤ k)
product_within a b k ha hb hk h =
    let m : ℕ = (2 * (a * b) + scale_factor) / (2 * scale_factor) in
    let small : m ≤ k =
      round_quotient-le nearest_ties_away_from_zero (a * b) scale_factor k m (omega arith) h refl in
    (
      m,
      scaled_product-pos a b nearest_ties_away_from_zero ha hb
          ∙ with_sign-false m (omega (arith, small)),
      small,
    )

-- A ratio rounded downwards, multiplied back, stays within the numerator.
pub ratio_floor :
    (a c : ℕ) (x : ℤ)
    → IsInt64 (pos a)
    → IsInt64 (pos c)
    → 0 < c
    → scaled_ratio (pos a) (pos c) toward_zero ≡ some x
    → (q : ℕ) × (x ≡ pos q) × (q * c ≤ a * scale_factor) × (q ≤ 9223372036854775807)
ratio_floor a c x ha hc h e =
    let q : ℕ = a * scale_factor / c in
    let signed : with_sign false q ≡ some x = sym (scaled_ratio-pos a c toward_zero ha hc h) ∙ e in
    (q, with_sign-pos q x signed, div-mul-le_self (a * scale_factor) c, with_sign-le q x signed)

pub wrap-some : {t : Tag} (o : Option ℤ) (v : Value t) → wrap o ≡ some v → o ≡ some v.units
wrap-some none v e = cc
wrap-some (some a) v e = ground arith

-- A guard that returns nothing was passed by whatever returned a value.
pub guard_passed :
    {A : Type 0} (g : Bool) (o : Option A) (v : A)
    → (if g then none else o) ≡ some v
    → (g ≡ false) × (o ≡ some v)
guard_passed true o v e = cc
guard_passed false o v e = (refl, e)
