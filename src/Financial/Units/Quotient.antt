-- ===== src/Financial/Units/Quotient.antt =====
-- The rounded quotient of 64-bit units is the rounded quotient of the integers.
use native.Mathlib.Nat.{div-eq_of_lt-le, mul-add-mod_self_right, mod-eq_of_lt, le-div_iff_mul-le}
use native.Mathlib.Decide.{dec_le}
use trade_bot.Base.{
  Bool, Bool-cases, Option, ap, arith, false, if◌then◌else◌, inl, inr, leb, none, refl, some, sym,
  true, ℕ, ◌%◌, ◌*◌, ◌+◌, ◌/◌, ◌<◌, ◌==◌, ◌^◌, ◌∙◌, ◌≡◌, ◌≤◌,
}
use trade_bot.Base.Int.{IsInt64, negsuc, pos, ℤ}
use trade_bot.Financial.Wide.{UInt128, multiply_wide, value}
use trade_bot.Financial.Wide.Product.{
  multiply_wide-high-lt, multiply_wide-low-lt, value-multiply_wide,
}
use trade_bot.Financial.Wide.Division.{divide_wide-Quotes}
use trade_bot.Financial.Units.{
  Rounding, is_zero, magnitude, nearest_ties_away_from_zero, reject_unaligned, round_magnitude,
  signed_quotient, toward_zero, with_sign,
}

-- Rounding a quotient of numbers of any size: downwards, only if it is whole, or to the nearest
-- number with halves upwards.
abbrev pub round_quotient : Rounding → ℕ → ℕ → Option ℕ
round_quotient toward_zero v d = some (v / d)
round_quotient reject_unaligned v d = if v % d == 0 then some (v / d) else none
round_quotient nearest_ties_away_from_zero v d = some ((2 * v + d) / (2 * d))

abbrev pub and_then {ℓ κ} : {A : Type ℓ} {B : Type κ} → Option A → (A → Option B) → Option B
and_then none f = none
and_then (some a) f = f a

div_of : (v d q r : ℕ) → q * d + r ≡ v → r < d → v / d ≡ q
div_of v d q r e h = div-eq_of_lt-le d (omega (arith, e)) (omega (arith, e))

mod_of : (v d q r : ℕ) → q * d + r ≡ v → r < d → v % d ≡ r
mod_of v d q r e h = ap (λ (t : ℕ). t % d) (sym e) ∙ mul-add-mod_self_right q d r ∙ mod-eq_of_lt h

nearest_down : (v d q r : ℕ) → q * d + r ≡ v → 2 * r < d → (2 * v + d) / (2 * d) ≡ q
nearest_down v d q r e h = div-eq_of_lt-le (2 * d) (omega (arith, e)) (omega (arith, e))

nearest_up : (v d q r : ℕ) → q * d + r ≡ v → r < d → d ≤ 2 * r → (2 * v + d) / (2 * d) ≡ q + 1
nearest_up v d q r e h k = div-eq_of_lt-le (2 * d) (omega (arith, e)) (omega (arith, e))

with_sign-large : (b : Bool) (m : ℕ) → 2 ^ 64 ≤ m → with_sign b m ≡ none
unfolding with_sign
with_sign-large true m h = ground arith
with_sign-large false m h = ground arith

abbrev signed : Rounding → ℕ → ℕ → Bool → Option ℤ
signed rounding v d b = and_then (round_quotient rounding v d) (with_sign b)

-- Too large a quotient has no signed value under any rounding.
signed-large :
    (rounding : Rounding) (v d : ℕ) (b : Bool)
    → 0 < d
    → d * 2 ^ 64 ≤ v
    → signed rounding v d b ≡ none
signed-large toward_zero v d b posd h =
    with_sign-large b (v / d) ((le-div_iff_mul-le posd).1 (omega arith))
signed-large reject_unaligned v d b posd h = elim (Bool-cases (v % d == 0)) [
  | inl whole ↦ rw whole (with_sign-large b (v / d) ((le-div_iff_mul-le posd).1 (omega arith)))
  | inr part ↦ rw part
]
signed-large nearest_ties_away_from_zero v d b posd h =
    with_sign-large b _
      ((le-div_iff_mul-le {k = 2 * d} {x = 2 ^ 64} {y = 2 * v + d} (omega arith)).1 (omega arith))

-- The code rounds the quotient and the remainder as the quotient of the numbers is rounded.
signed-exact :
    (rounding : Rounding) (v d q r : ℕ) (b : Bool)
    → q * d + r ≡ v
    → r < d
    → q < 2 ^ 64
    → and_then (round_magnitude rounding d q r) (with_sign b) ≡ signed rounding v d b
unfolding round_magnitude
signed-exact toward_zero v d q r b e h k = rw (div_of v d q r e h)
signed-exact reject_unaligned v d q r b e h k = rw (div_of v d q r e h, mod_of v d q r e h)
signed-exact nearest_ties_away_from_zero v d q r b e h k = elim (dec_le d (2 * r)) [
  | yes up ↦
      let e1 : leb (d / 2 + d % 2) r ≡ true = ground arith in
      rw (nearest_up v d q r e h up, e1)
        (elim (Bool-cases (q == 18446744073709551615)) [
          | inl full ↦ rw full (sym (with_sign-large b (q + 1) (ground arith)))
          | inr room ↦ rw room
        ])
  | no down ↦
      let e1 : leb (d / 2 + d % 2) r ≡ false = ground arith in
      rw (nearest_down v d q r e (omega arith), e1)
]

-- For words and a positive divisor of 64 bits, the long division followed by the rounding, the sign and the range checks
-- is the rounded quotient of the numbers, or nothing where 64 bits cannot hold it.
pub signed_quotient_lem :
    (n : UInt128) (d : ℕ) (b : Bool) (rounding : Rounding)
    → 0 < d
    → d < 2 ^ 64
    → n.high < 2 ^ 64
    → n.low < 2 ^ 64
    → signed_quotient n d b rounding ≡ and_then (round_quotient rounding (value n) d) (with_sign b)
unfolding signed_quotient
signed_quotient_lem n d b rounding posd hd hh hl = elim (divide_wide-Quotes n d posd hd hh hl) [
  | inl (large, e) ↦ rw (e, signed_quotient) (sym (signed-large rounding (value n) d b posd large))
  | inr (q, r, e, exact, hr, hq) ↦
      rw (e, signed_quotient)
        (elims (round_magnitude rounding d q r) b
          ∙ signed-exact rounding (value n) d q r b exact hr hq)
]
  where
    elims :
        (o : Option ℕ) (b : Bool)
        → (elim o [ none ↦ none | some rounded ↦ with_sign b rounded ]) ≡ and_then o (with_sign b)
    elims none b = refl
    elims (some m) b = refl

pub magnitude-lt : (a : ℤ) → IsInt64 a → magnitude a < 2 ^ 64
unfolding magnitude
magnitude-lt (pos n) h = omega arith
magnitude-lt (negsuc n) h = omega arith

pub magnitude-pos : (a : ℤ) → is_zero a ≡ false → 0 < magnitude a
unfolding magnitude
magnitude-pos (pos n) h = ground arith
magnitude-pos (negsuc n) h = omega arith

-- The product of two magnitudes, divided, rounded and signed.
pub product_quotient :
    (a b d : ℕ) (negative : Bool) (rounding : Rounding)
    → a < 2 ^ 64
    → b < 2 ^ 64
    → 0 < d
    → d < 2 ^ 64
    → signed_quotient (multiply_wide a b) d negative rounding
      ≡ and_then (round_quotient rounding (a * b) d) (with_sign negative)
product_quotient a b d negative rounding ha hb posd hd =
    signed_quotient_lem (multiply_wide a b) d negative rounding posd hd (multiply_wide-high-lt a b)
      (multiply_wide-low-lt a b)
    ∙ ap (λ t. and_then (round_quotient rounding t d) (with_sign negative))
        (value-multiply_wide a b ha hb)
