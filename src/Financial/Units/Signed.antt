-- ===== src/Financial/Units/Signed.antt =====
-- The signed quotients of 64-bit units are quotients of integers, checked for the range of 64 bits.
use trade_bot.Base.{
  Bool, Option, ap, ap₂, arith, false, none, refl, some, true, ℕ, ◌*◌, ◌+◌, ◌<◌, ◌^◌, ◌∙◌, ◌≡◌,
}
use trade_bot.Base.Int.{IsInt64, neg_part, negsuc, pos, pos_part, ℤ, ◌-ℤ◌}
use trade_bot.Financial.Wide.{UInt128, multiply_wide, value}
use trade_bot.Financial.Units.{
  Rounding, differ, is_negative, is_zero, magnitude, proportional_units, scale_factor,
  scaled_product, scaled_ratio, signed_quotient, with_sign,
}
use trade_bot.Financial.Units.Quotient.{
  and_then, magnitude-lt, magnitude-pos, product_quotient, round_quotient, signed_quotient_lem,
}
use trade_bot.Financial.Units.Sums.{representable}

abbrev pub absolute : ℤ → ℕ
absolute a = pos_part a + neg_part a

abbrev pub below_zero : ℤ → Bool
below_zero (pos n) = false
below_zero (negsuc n) = true

abbrev pub opposite : Bool → Bool → Bool
opposite true true = false
opposite true false = true
opposite false true = true
opposite false false = false

-- The integer of that absolute value, if it is one of `std::int64_t`.
abbrev pub signed_value : Bool → ℕ → Option ℤ
signed_value true m = representable (pos 0 -ℤ pos m)
signed_value false m = representable (pos m)

with_sign-signed_value : (b : Bool) (m : ℕ) → with_sign b m ≡ signed_value b m
unfolding with_sign ◌-ℤ◌
with_sign-signed_value true m = ground arith
with_sign-signed_value false m = ground arith

and_then-signed_value :
    (o : Option ℕ) (b : Bool) → and_then o (with_sign b) ≡ and_then o (signed_value b)
and_then-signed_value none b = refl
and_then-signed_value (some m) b = with_sign-signed_value b m

magnitude-absolute : (a : ℤ) → magnitude a ≡ absolute a
unfolding magnitude
magnitude-absolute (pos n) = omega arith
magnitude-absolute (negsuc n) = omega arith

is_negative-below_zero : (a : ℤ) → is_negative a ≡ below_zero a
is_negative-below_zero (pos n) = ground arith
is_negative-below_zero (negsuc n) = ground arith

differ-opposite : (a b : Bool) → differ a b ≡ opposite a b
differ-opposite true true = refl
differ-opposite true false = refl
differ-opposite false true = refl
differ-opposite false false = refl

-- For words and a positive divisor of 64 bits, the long division followed by the rounding, the sign and
-- the range checks is the rounded quotient of the numbers with that sign, or nothing where this
-- integer is not one of 64 bits.
pub signed_quotient-round_quotient :
    (n : UInt128) (d : ℕ) (b : Bool) (rounding : Rounding)
    → 0 < d
    → d < 2 ^ 64
    → n.high < 2 ^ 64
    → n.low < 2 ^ 64
    → signed_quotient n d b rounding
      ≡ and_then (round_quotient rounding (value n) d) (signed_value b)
signed_quotient-round_quotient n d b rounding posd hd hh hl =
    signed_quotient_lem n d b rounding posd hd hh hl ∙ and_then-signed_value _ b

-- The sign and the size of a signed quotient of two magnitudes.
product-signed_value :
    (a b d : ℕ) (negative negative' : Bool) (rounding : Rounding)
    → a < 2 ^ 64
    → b < 2 ^ 64
    → 0 < d
    → d < 2 ^ 64
    → negative ≡ negative'
    → signed_quotient (multiply_wide a b) d negative rounding
      ≡ and_then (round_quotient rounding (a * b) d) (signed_value negative')
product-signed_value a b d negative negative' rounding ha hb posd hd e =
    product_quotient a b d negative rounding ha hb posd hd
    ∙ and_then-signed_value _ negative
    ∙ ap (λ n. and_then (round_quotient rounding (a * b) d) (signed_value n)) e

-- The scaled product and the two ratios of 64-bit units, with a divisor other than 0, are the rounded
-- quotients of the products of the absolute values, negative when an odd number of the arguments is,
-- or nothing where this integer is not one of 64 bits.
pub scaled_quotients :
    (a b c : ℤ) (rounding : Rounding)
    → IsInt64 a
    → IsInt64 b
    → IsInt64 c
    → is_zero c ≡ false
    → (scaled_product a b rounding
        ≡ and_then
            (round_quotient rounding (absolute a * absolute b) scale_factor)
            (signed_value (opposite (below_zero a) (below_zero b))))
      × (scaled_ratio a c rounding
          ≡ and_then
              (round_quotient rounding (absolute a * scale_factor) (absolute c))
              (signed_value (opposite (below_zero a) (below_zero c))))
      × (proportional_units a b c rounding
          ≡ and_then
              (round_quotient rounding (absolute a * absolute b) (absolute c))
              (signed_value (opposite (opposite (below_zero a) (below_zero b)) (below_zero c))))
unfolding scaled_product scaled_ratio proportional_units
scaled_quotients a b c rounding ha hb hc nonzero =
    let ma = magnitude-lt a ha in
    let mb = magnitude-lt b hb in
    let mc = magnitude-lt c hc in
    let pc = magnitude-pos c nonzero in
    let two : (x y : ℤ)
        → differ (is_negative x) (is_negative y) ≡ opposite (below_zero x) (below_zero y) =
      λ x y.
        ap₂ differ (is_negative-below_zero x) (is_negative-below_zero y) ∙ differ-opposite _ _ in
    rw (← magnitude-absolute a, ← magnitude-absolute b, ← magnitude-absolute c)
      (
        product-signed_value _ _ _ _ _ rounding ma mb (omega arith) (omega arith) (two a b),
        rw nonzero (product-signed_value _ _ _ _ _ rounding ma (omega arith) pc mc (two a c)),
        rw nonzero (
            product-signed_value _ _ _ _ _ rounding ma mb pc mc
              (ap₂ differ (two a b) (is_negative-below_zero c) ∙ differ-opposite _ _)),
      )
