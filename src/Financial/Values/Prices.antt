-- ===== src/Financial/Values/Prices.antt =====
-- What `applySlippage` and `proportional` promise about the prices and shares that they return.
use trade_bot.Base.{
  ℕ, ◌+◌, ◌-◌, ◌*◌, ◌/◌, ◌≤◌, ◌<◌, ◌≡◌, Bool, true, false, none, some, arith, Option, refl, ◌∙◌, ap,
  sym, if◌then◌else◌, ◌||◌, not,
}
use trade_bot.Base.Int.{ℤ, pos, negsuc, ◌≤ℤ◌, ◌<ℤ◌, ◌+ℤ◌, ◌-ℤ◌, IsInt64, ltb_ℤ, leb_ℤ}
use trade_bot.Financial.Units.{
  Rounding, nearest_ties_away_from_zero, with_sign, scaled_product, proportional_units,
  scale_factor, is_negative, is_positive,
}
use trade_bot.Financial.Units.Quotient.{round_quotient, and_then}
use trade_bot.Financial.Units.Bounds.{
  round_quotient-le, le-round_quotient, round_quotient-mul, with_sign-false, with_sign-pos,
}
use trade_bot.Financial.Values.{
  Value, Money, Quantity, Price, Fraction, Tag, of_units, wrap, if_positive, apply_slippage,
  proportional,
}
use trade_bot.Financial.Values.Nonnegative.{
  scaled_product-pos, proportional_units-pos, guard_passed,
}

-- A signed rounded quotient is a rounded quotient.
and_then-pos :
    (o : Option ℕ) (x : ℤ)
    → and_then o (with_sign false) ≡ some x
    → (m : ℕ) × (o ≡ some m) × (x ≡ pos m)
and_then-pos none x e = cc
and_then-pos (some m) x e = (m, refl, with_sign-pos m x e)

if_positive-some :
    {t : Tag} (o : Option ℤ) (v : Value t)
    → if_positive o ≡ some v
    → (o ≡ some v.units) × (pos 0 <ℤ v.units)
if_positive-some none v e = cc
if_positive-some (some a) v e = ground arith

-- The side of the market price on which a price after slippage lies.
abbrev pub Slips : Bool → ℤ → ℤ → Type 0
Slips true market slipped = market ≤ℤ slipped
Slips false market slipped = slipped ≤ℤ market

rise : (x : ℤ) (m p : ℕ) → x ≡ pos m → p ≤ m → pos p ≤ℤ x
rise x m p e h = rw e (omega (arith, h))

fall : (x : ℤ) (m p : ℕ) → x ≡ pos m → m ≤ p → x ≤ℤ pos p
fall x m p e h = rw e (omega (arith, h))

slipped_up :
    (p f : ℕ) (rounding : Rounding) (x : ℤ)
    → IsInt64 (pos p)
    → f < scale_factor
    → scaled_product (pos p) (pos (scale_factor + f)) rounding ≡ some x
    → pos p ≤ℤ x
slipped_up p f rounding x hp hf e =
    let v : ℕ = p * (scale_factor + f) in
    let (m, rounded, sign) =
      and_then-pos (round_quotient rounding v scale_factor) x
        (sym (scaled_product-pos p (scale_factor + f) rounding hp (omega arith)) ∙ e) in
    rise x m p sign
      (le-round_quotient rounding v scale_factor p m (omega arith) (omega arith) rounded)

slipped_down :
    (p f : ℕ) (rounding : Rounding) (x : ℤ)
    → IsInt64 (pos p)
    → f < scale_factor
    → scaled_product (pos p) (pos (scale_factor - f)) rounding ≡ some x
    → x ≤ℤ pos p
slipped_down p f rounding x hp hf e =
    let v : ℕ = p * (scale_factor - f) in
    let (m, rounded, sign) =
      and_then-pos (round_quotient rounding v scale_factor) x
        (sym (scaled_product-pos p (scale_factor - f) rounding hp (omega arith)) ∙ e) in
    let smaller : v ≤ p * scale_factor = grind arith in
    fall x m p sign (round_quotient-le rounding v scale_factor p m (omega arith) smaller rounded)

sum-pos : (f : ℕ) → pos scale_factor +ℤ pos f ≡ pos (scale_factor + f)
unfolding ◌+ℤ◌
sum-pos f = ground arith

difference-pos : (f : ℕ) → f < scale_factor → pos scale_factor -ℤ pos f ≡ pos (scale_factor - f)
unfolding ◌-ℤ◌
difference-pos f h = ground arith

-- What the guards of `applySlippage` let through.
slippage_guards :
    (a f : ℤ)
    → (not (is_positive a) || is_negative f || leb_ℤ (pos scale_factor) f) ≡ false
    → (p : ℕ) × (k : ℕ) × (a ≡ pos p) × (f ≡ pos k) × (k < scale_factor)
slippage_guards (pos p) (pos k) h = (p, k, refl, refl, ground arith)
slippage_guards (pos p) (negsuc k) h = absurd (ground arith)
slippage_guards (negsuc p) f h = absurd (ground arith)

slipped_side :
    (a f x : ℤ) (p k : ℕ) (buy : Bool) (rounding : Rounding)
    → a ≡ pos p
    → f ≡ pos k
    → k < scale_factor
    → IsInt64 a
    → scaled_product a (if buy then pos scale_factor +ℤ f else pos scale_factor -ℤ f) rounding
      ≡ some x
    → Slips buy a x
slipped_side a f x p k true rounding ea ef small ha e =
    rw ea (slipped_up p k rounding x (rw ea at ha) small (rw (ea, ef, sum-pos k) at e))
slipped_side a f x p k false rounding ea ef small ha e =
    rw ea
      (slipped_down p k rounding x (rw ea at ha) small (rw (ea, ef, difference-pos k small) at e))

-- For a 64-bit market price: a price after slippage is positive under every rounding; a buyer's is at least the market price,
-- and a seller's at most.
pub apply_slippage-Slips :
    (market : Price) (rate : Fraction) (buy : Bool) (rounding : Rounding) (slipped : Price)
    → IsInt64 market.units
    → apply_slippage market rate buy rounding ≡ some slipped
    → (pos 0 <ℤ slipped.units) × Slips buy market.units slipped.units
unfolding apply_slippage
apply_slippage-Slips market rate buy rounding slipped hm e =
    let a : ℤ = market.units in
    let f : ℤ = rate.units in
    let (passed, made) =
      guard_passed (not (is_positive a) || is_negative f || leb_ℤ (pos scale_factor) f) _ slipped
        e in
    let (p, k, ea, ef, small) = slippage_guards a f passed in
    let (product, positive) = if_positive-some _ slipped made in
    (positive, slipped_side a f slipped.units p k buy rounding ea ef small hm product)

-- The share of a total that is not negative lies between nothing and the total, and the whole is
-- the total.
share :
    (t a w : ℕ)
    → IsInt64 (pos t)
    → IsInt64 (pos w)
    → 0 < w
    → a ≤ w
    → (m : ℕ) × (proportional_units (pos t) (pos a) (pos w) nearest_ties_away_from_zero
        ≡ some (pos m))
      × (m ≤ t)
share t a w ht hw hpos h =
    let m : ℕ = (2 * (t * a) + w) / (2 * w) in
    let within : t * a ≤ t * w = grind arith in
    let small : m ≤ t =
      round_quotient-le nearest_ties_away_from_zero (t * a) w t m hpos within refl in
    (
      m,
      proportional_units-pos t a w nearest_ties_away_from_zero ht (omega arith) hw hpos
          ∙ with_sign-false m (omega (arith, small)),
      small,
    )

share_whole :
    (t w : ℕ) (rounding : Rounding)
    → IsInt64 (pos t)
    → IsInt64 (pos w)
    → 0 < w
    → proportional_units (pos t) (pos w) (pos w) rounding ≡ some (pos t)
share_whole t w rounding ht hw hpos =
    proportional_units-pos t w w rounding ht hw hw hpos
    ∙ rw (round_quotient-mul rounding t w hpos) (with_sign-false t (omega arith))

share_signs :
    (t a w : ℤ) (rounding : Rounding)
    → IsInt64 t
    → IsInt64 w
    → pos 0 ≤ℤ t
    → pos 0 ≤ℤ a
    → a ≤ℤ w
    → pos 0 <ℤ w
    → ((cost : Money) × (proportional
            (of_units t)
            (of_units a)
            (of_units w)
            nearest_ties_away_from_zero
          ≡ some cost)
        × (pos 0 ≤ℤ cost.units)
        × (cost.units ≤ℤ t))
      × (proportional (of_units t) (of_units w) (of_units w) rounding ≡ some (of_units t))
unfolding proportional
share_signs (negsuc t) a w rounding ht hw pt pa h pw = absurd (omega arith)
share_signs (pos t) (negsuc a) w rounding ht hw pt pa h pw = absurd (omega arith)
share_signs (pos t) (pos a) (negsuc w) rounding ht hw pt pa h pw = absurd (omega arith)
share_signs (pos t) (pos a) (pos w) rounding ht hw pt pa h pw =
    let (m, product, small) = share t a w ht hw (omega arith) (omega arith) in
    let open1 : (is_negative (pos a) || not (is_positive (pos w)) || ltb_ℤ (pos w) (pos a))
        ≡ false =
      ground arith in
    let open2 : (is_negative (pos w) || not (is_positive (pos w)) || ltb_ℤ (pos w) (pos w))
        ≡ false =
      ground arith in
    (
      (of_units (pos m), rw open1 (ap wrap product), omega arith, omega (arith, small)),
      rw open2 (ap wrap (share_whole t w rounding ht hw (omega arith))),
    )

-- For 64-bit units: a share of an amount that is not negative, by a part between nothing and a
-- positive whole, exists with the default rounding and lies between nothing and the amount. The share
-- of the whole is the amount itself, under every rounding.
pub proportional_share :
    (total : Money) (part whole : Quantity) (rounding : Rounding)
    → IsInt64 total.units
    → IsInt64 whole.units
    → pos 0 ≤ℤ total.units
    → pos 0 ≤ℤ part.units
    → part.units ≤ℤ whole.units
    → pos 0 <ℤ whole.units
    → ((cost : Money) × (proportional total part whole nearest_ties_away_from_zero ≡ some cost)
        × (pos 0 ≤ℤ cost.units)
        × (cost.units ≤ℤ total.units))
      × (proportional total whole whole rounding ≡ some total)
proportional_share total part whole rounding ht hw pt pa h pw =
    share_signs total.units part.units whole.units rounding ht hw pt pa h pw
