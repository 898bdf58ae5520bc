-- ===== src/Financial/Wide/Product.antt =====
-- The 128-bit product is exact.
use trade_bot.Base.{ℕ, ◌+◌, ◌*◌, ◌/◌, ◌%◌, ◌^◌, ◌≤◌, ◌<◌, ◌≡◌, sym, ap₂, ◌∙◌, arith}
use trade_bot.Financial.Wide.{value, multiply_wide}

mul-le : (a b : ℕ) → a < 4294967296 → b < 4294967296 → a * b ≤ 4294967295 * 4294967295
mul-le a b h k = grind arith

-- A word is its two halves, and so is the product of two words.
mul-halves :
    (b a d c : ℕ)
    → (b * 4294967296 + a) * (d * 4294967296 + c)
      ≡ (b * d) * 18446744073709551616 + (a * d + b * c) * 4294967296 + a * c
mul-halves b a d c = omega arith

-- The sum of the four partial products, when none of them leaves 64 bits.
partial_products :
    (ll lh hl hh : ℕ)
    → ll ≤ 4294967295 * 4294967295
    → lh ≤ 4294967295 * 4294967295
    → hl ≤ 4294967295 * 4294967295
    → hh ≤ 4294967295 * 4294967295
    → let m : ℕ = (ll / 2 ^ 32 + lh % 2 ^ 32 + hl % 2 ^ 32) % 2 ^ 64 in
      hh + lh / 2 ^ 32 + hl / 2 ^ 32 + m / 2 ^ 32 < 2 ^ 64
      → (hh + lh / 2 ^ 32 + hl / 2 ^ 32 + m / 2 ^ 32) % 2 ^ 64 * 2 ^ 64
          + (m * 2 ^ 32 % 2 ^ 64 + ll % 2 ^ 32)
        ≡ hh * 2 ^ 64 + (lh + hl) * 2 ^ 32 + ll
partial_products ll lh hl hh a b c d e = omega arith

-- The upper word of the sum cannot overflow.
upper_bound :
    (ll lh hl hh : ℕ)
    → ll ≤ 4294967295 * 4294967295
    → lh ≤ 4294967295 * 4294967295
    → hl ≤ 4294967295 * 4294967295
    → hh ≤ 4294967295 * 4294967295
    → hh + lh / 2 ^ 32 + hl / 2 ^ 32 + (ll / 2 ^ 32 + lh % 2 ^ 32 + hl % 2 ^ 32) % 2 ^ 64 / 2 ^ 32
      < 2 ^ 64
upper_bound ll lh hl hh a b c d = omega arith

mul-mod : (a b : ℕ) → a < 4294967296 → b < 4294967296 → a * b % 2 ^ 64 ≡ a * b
mul-mod a b h k = omega (arith, mul-le a b h k)

word_halves : (w : ℕ) → w / 2 ^ 32 * 4294967296 + w % 2 ^ 32 ≡ w
word_halves w = omega arith

high_half_lt : (w : ℕ) → w < 2 ^ 64 → w / 2 ^ 32 < 4294967296
high_half_lt w h = omega arith

low_half_lt : (w : ℕ) → w % 2 ^ 32 < 4294967296
low_half_lt w = omega arith

-- The product of two 64-bit words is computed without loss from four 32-bit partial products.
pub value-multiply_wide :
    (lhs rhs : ℕ) → lhs < 2 ^ 64 → rhs < 2 ^ 64 → value (multiply_wide lhs rhs) ≡ lhs * rhs
unfolding multiply_wide
value-multiply_wide lhs rhs h k =
    let al = low_half_lt lhs in
    let ah = high_half_lt lhs h in
    let bl = low_half_lt rhs in
    let bh = high_half_lt rhs k in
    let ll : ℕ = (lhs % 2 ^ 32) * (rhs % 2 ^ 32) in
    let lh : ℕ = (lhs % 2 ^ 32) * (rhs / 2 ^ 32) in
    let hl : ℕ = (lhs / 2 ^ 32) * (rhs % 2 ^ 32) in
    let hh : ℕ = (lhs / 2 ^ 32) * (rhs / 2 ^ 32) in
    rw (mul-mod _ _ al bl, mul-mod _ _ al bh, mul-mod _ _ ah bl, mul-mod _ _ ah bh)
      (partial_products ll lh hl hh (mul-le _ _ al bl) (mul-le _ _ al bh) (mul-le _ _ ah bl)
          (mul-le _ _ ah bh)
          (upper_bound ll lh hl hh (mul-le _ _ al bl) (mul-le _ _ al bh) (mul-le _ _ ah bl)
            (mul-le _ _ ah bh))
        ∙ sym (mul-halves (lhs / 2 ^ 32) (lhs % 2 ^ 32) (rhs / 2 ^ 32) (rhs % 2 ^ 32))
        ∙ ap₂ (λ (x y : ℕ). x * y) (word_halves lhs) (word_halves rhs))

pub multiply_wide-low-lt : (lhs rhs : ℕ) → (multiply_wide lhs rhs).low < 2 ^ 64
unfolding multiply_wide
multiply_wide-low-lt lhs rhs = omega arith

pub multiply_wide-high-lt : (lhs rhs : ℕ) → (multiply_wide lhs rhs).high < 2 ^ 64
unfolding multiply_wide
multiply_wide-high-lt lhs rhs = omega arith
