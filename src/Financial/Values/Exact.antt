-- ===== src/Financial/Values/Exact.antt =====
-- What a result of the operations on values says about its units.
use trade_bot.Base.{Bool, Option-cases, arith, inl, inr, some, sym, ℕ, ◌*◌, ◌∙◌, ◌≡◌}
use trade_bot.Base.Int.{IsInt64, negsuc, pos, ℤ, ◌+ℤ◌, ◌-ℤ◌, ◌≤ℤ◌}
use trade_bot.Financial.Wide.{UInt128, divide_wide}
use trade_bot.Financial.Units.{
  Rounding, checked_add, checked_subtract, proportional_units, round_magnitude, scale_factor,
  scaled_product, scaled_ratio, signed_quotient, with_sign,
}
use trade_bot.Financial.Units.Sums.{checked_sums}
use trade_bot.Financial.Values.{
  Money, Price, Quantity, Tag, Value, add, notional, proportional, quantity_for_notional, subtract,
}
use trade_bot.Financial.Units.Quotient.{round_quotient}
use trade_bot.Financial.Units.Bounds.{with_sign-pos}
use trade_bot.Financial.Values.Nonnegative.{guard_passed, scaled_product-pos, wrap-some}

with_sign-IsInt64 : (b : Bool) (q : ℕ) (a : ℤ) → with_sign b q ≡ some a → IsInt64 a
unfolding with_sign ◌-ℤ◌
with_sign-IsInt64 b q a h = ground arith

signed_quotient-IsInt64 :
    (n : UInt128) (d : ℕ) (b : Bool) (r : Rounding) (a : ℤ)
    → signed_quotient n d b r ≡ some a
    → IsInt64 a
unfolding signed_quotient
signed_quotient-IsInt64 n d b r a h = elim (Option-cases (divide_wide n d)) [
  | inl e ↦ ground (arith, e)
  | inr ((q, m), e) ↦ elim (Option-cases (round_magnitude r d q m)) [
    | inl f ↦ ground (arith, e, f)
    | inr (k, f) ↦ with_sign-IsInt64 b k a (ground (arith, e, f))
  ]
]

-- A sum that is returned is the exact sum.
pub add-exact :
    {t : Tag} (a b c : Value t)
    → IsInt64 a.units
    → IsInt64 b.units
    → add a b ≡ some c
    → (c.units ≡ a.units +ℤ b.units) × IsInt64 c.units
unfolding add
add-exact a b c ha hb h =
    let sum =
      sym (wrap-some (checked_add a.units b.units) c h) ∙ (checked_sums a.units b.units ha hb).0 in
    ground (arith, sum)

pub subtract-exact :
    {t : Tag} (a b c : Value t)
    → IsInt64 a.units
    → IsInt64 b.units
    → subtract a b ≡ some c
    → (c.units ≡ a.units -ℤ b.units) × IsInt64 c.units
unfolding subtract
subtract-exact a b c ha hb h =
    let sum =
      sym (wrap-some (checked_subtract a.units b.units) c h)
      ∙ (checked_sums a.units b.units ha hb).1 in
    ground (arith, sum)

pub notional-IsInt64 :
    (p : Price) (q : Quantity) (r : Rounding) (m : Money)
    → notional p q r ≡ some m
    → IsInt64 m.units
unfolding notional scaled_product
notional-IsInt64 p q r m h = signed_quotient-IsInt64 _ _ _ r m.units (wrap-some _ m h)

pub quantity_for_notional-IsInt64 :
    (m : Money) (p : Price) (r : Rounding) (q : Quantity)
    → quantity_for_notional m p r ≡ some q
    → IsInt64 q.units
unfolding quantity_for_notional scaled_ratio
quantity_for_notional-IsInt64 m p r q h =
    let (_, e) = guard_passed _ _ _ h in
    let (_, f) = guard_passed _ _ _ (wrap-some _ q e) in signed_quotient-IsInt64 _ _ _ r q.units f

pub proportional-IsInt64 :
    (t : Money) (part whole : Quantity) (r : Rounding) (m : Money)
    → proportional t part whole r ≡ some m
    → IsInt64 m.units
unfolding proportional proportional_units
proportional-IsInt64 t part whole r m h =
    let (_, e) = guard_passed _ _ _ h in
    let (_, f) = guard_passed _ _ _ (wrap-some _ m e) in signed_quotient-IsInt64 _ _ _ r m.units f

product_signs :
    (a b x : ℤ) (r : Rounding)
    → IsInt64 a
    → IsInt64 b
    → pos 0 ≤ℤ a
    → pos 0 ≤ℤ b
    → scaled_product a b r ≡ some x
    → pos 0 ≤ℤ x
product_signs (pos a) (pos b) x r ha hb na nb h =
    let e = sym (scaled_product-pos a b r ha hb) ∙ h in
    elim (Option-cases (round_quotient r (a * b) scale_factor)) [
      | inl none_left ↦ ground (arith, e, none_left)
      | inr (k, rounded) ↦ ground (arith, with_sign-pos k x (ground (arith, e, rounded)))
    ]
product_signs (pos a) (negsuc b) x r ha hb na nb h = absurd (ground arith)
product_signs (negsuc a) b x r ha hb na nb h = absurd (ground arith)

pub notional-nonneg :
    (p : Price) (q : Quantity) (r : Rounding) (m : Money)
    → IsInt64 p.units
    → IsInt64 q.units
    → pos 0 ≤ℤ p.units
    → pos 0 ≤ℤ q.units
    → notional p q r ≡ some m
    → pos 0 ≤ℤ m.units
unfolding notional
notional-nonneg p q r m hp hq np nq h =
    product_signs p.units q.units m.units r hp hq np nq (wrap-some _ m h)
