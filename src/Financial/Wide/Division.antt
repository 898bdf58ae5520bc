-- ===== src/Financial/Wide/Division.antt =====
-- Long division is the division of the number that the two words stand for.
use native.Mathlib.Nat.{
  pow-suc, mul-add-mod_self_right, mod-eq_of_lt, mod-lt, div-add-mod', mul-div_left, one-le-pow,
}
use trade_bot.Base.{
  ℕ, zero, suc, ◌+◌, ◌-◌, ◌*◌, ◌/◌, ◌%◌, ◌^◌, ◌≤◌, ◌<◌, ◌≡◌, ◌⊎◌, inl, inr, refl, ap, ◌∙◌, Bool,
  true, false, Option, none, some, arith, leb, if◌then◌else◌, ◌==◌,
}
use trade_bot.Financial.Wide.{
  UInt128, value, bit_at, set_bit, divide_step, divide_loop, divide_wide,
}

mod-double : (x p : ℕ) → 0 < p → x % (p * 2) ≡ x / p % 2 * p + x % p
mod-double x p h =
    let b : ℕ = x / p % 2 in
    let z : ℕ = x / p / 2 in
    let rest : ℕ = b * p + x % p in
    let small : b * p ≤ p = grind arith in
    let split : x ≡ z * (p * 2) + rest =
      omega (arith, div-add-mod' x p, ap (λ (t : ℕ). t * p) (div-add-mod' (x / p) 2)) in
    ap (λ (t : ℕ). t % (p * 2)) split
    ∙ mul-add-mod_self_right z (p * 2) rest
    ∙ mod-eq_of_lt (omega (arith, mod-lt x h))

pow_two_pos : (k : ℕ) → 0 < 2 ^ k
pow_two_pos k = one-le-pow k 2 (omega arith)

-- A bit that is clear, with all below it, is set by an addition.
set_bit-add : (q k m : ℕ) → q ≡ m * (2 ^ k * 2) → set_bit q k ≡ q + 2 ^ k
unfolding set_bit
set_bit-add q k m e =
    let even : q / 2 ^ k ≡ 2 * m =
      ap (λ (t : ℕ). t / 2 ^ k) (omega (arith, e)) ∙ mul-div_left (2 * m) (pow_two_pos k) in
    ground (arith, even)

-- The bit of the numerator at an index.
bit_value : UInt128 → ℕ → ℕ
bit_value n index = if bit_at n index then 1 else 0

bit_value-low : (n : UInt128) (k : ℕ) → k < 64 → bit_value n k ≡ n.low / 2 ^ k % 2
unfolding bit_value bit_at
bit_value-low n k h = ground arith

bit_value-high : (n : UInt128) (k : ℕ) → bit_value n (64 + k) ≡ n.high / 2 ^ k % 2
unfolding bit_value bit_at
bit_value-high n k = let e : 64 + k - 64 ≡ k = omega arith in rw e (ground arith)

-- A round that sets the bit of the quotient takes the denominator off.
divide_step-true :
    (n : UInt128) (d bit r s : ℕ)
    → d < 2 ^ 64
    → r < d
    → divide_step n d bit r ≡ (s, true)
    → (s + d ≡ 2 * r + bit_value n bit) × (s < d)
unfolding divide_step bit_value
divide_step-true n d bit r s h k e = ground arith

-- A round that leaves it clear brings the bit of the numerator down.
divide_step-false :
    (n : UInt128) (d bit r s : ℕ)
    → d < 2 ^ 64
    → r < d
    → divide_step n d bit r ≡ (s, false)
    → (s ≡ 2 * r + bit_value n bit) × (s < d)
unfolding divide_step bit_value
divide_step-false n d bit r s h k e = ground arith

step_cases : (p : ℕ × Bool) → ((s : ℕ) × (p ≡ (s, true))) ⊎ ((s : ℕ) × (p ≡ (s, false)))
step_cases (s, true) = inl (s, refl)
step_cases (s, false) = inr (s, refl)

-- The three ways in which a round goes on.
round_set :
    (k : ℕ) (n : UInt128) (d q r s : ℕ)
    → k < 64
    → divide_step n d k r ≡ (s, true)
    → divide_loop (suc k) n d q r ≡ divide_loop k n d (set_bit q k) s
unfolding divide_loop
round_set k n d q r s h e =
    let below : leb 64 k ≡ false = ground arith in rw (e, below, divide_loop) (rw e)

round_overflow :
    (k : ℕ) (n : UInt128) (d q r s : ℕ)
    → 64 ≤ k
    → divide_step n d k r ≡ (s, true)
    → divide_loop (suc k) n d q r ≡ none
unfolding divide_loop
round_overflow k n d q r s h e =
    let above : leb 64 k ≡ true = ground arith in rw (e, above, divide_loop)

round_clear :
    (k : ℕ) (n : UInt128) (d q r s : ℕ)
    → divide_step n d k r ≡ (s, false)
    → divide_loop (suc k) n d q r ≡ divide_loop k n d q s
unfolding divide_loop
round_clear k n d q r s e = rw (e, divide_loop) (rw e)

-- The result is the division of `total`, with its quotient added to `q`.
abbrev Divides : ℕ → ℕ → ℕ → Option (ℕ × ℕ) → Type 0
Divides total d q result =
    (q' : ℕ) × (r' : ℕ) × (result ≡ some (q', r'))
    × (q' * d + r' ≡ q * d + total)
    × (r' < d)
    × (q' < 2 ^ 64)

-- The rounds on the lower word always end in a quotient.
low_rounds :
    (k : ℕ) (n : UInt128) (d q r m : ℕ)
    → k ≤ 64
    → d < 2 ^ 64
    → r < d
    → q ≡ m * 2 ^ k
    → q + 2 ^ k ≤ 2 ^ 64
    → Divides (r * 2 ^ k + n.low % 2 ^ k) d q (divide_loop k n d q r)
unfolding divide_loop
low_rounds zero n d q r m small hd hr e room = (q, r, refl, omega arith, hr, omega arith)
low_rounds (suc k) n d q r m small hd hr e room =
    let p : ℕ = 2 ^ k in
    let twice : 2 ^ suc k ≡ p * 2 = pow-suc 2 k in
    let split = mod-double n.low p (pow_two_pos k) in
    elim (step_cases (divide_step n d k r)) [
      | inl (s, round) ↦
          let (sum, hs) = divide_step-true n d k r s hd hr round in
          let e' : q ≡ m * (p * 2) = rw (← twice) e in
          let (q', r', result, exact, hr', hq') =
            low_rounds k n d (q + p) s (2 * m + 1) (omega arith) hd hs (omega arith)
              (omega arith) in
          (
            q',
            r',
            round_set k n d q r s small round
                ∙ ap (λ (t : ℕ). divide_loop k n d t s) (set_bit-add q k m e')
                ∙ result,
            omega (
              arith,
              exact,
              twice,
              split,
              bit_value-low n k small,
              ap (λ (t : ℕ). n.low % t) twice,
              ap (λ (t : ℕ). r * t) twice,
              ap (λ (t : ℕ). t * p) sum,
              ap (λ (t : ℕ). t * p) (bit_value-low n k small),
            ),
            hr',
            hq',
          )
      | inr (s, round) ↦
          let (sum, hs) = divide_step-false n d k r s hd hr round in
          let (q', r', result, exact, hr', hq') =
            low_rounds k n d q s (2 * m) (omega arith) hd hs
              (omega (arith, ap (λ (t : ℕ). m * t) twice)) (omega arith) in
          (
            q',
            r',
            round_clear k n d q r s round ∙ result,
            omega (
              arith,
              exact,
              twice,
              split,
              bit_value-low n k small,
              ap (λ (t : ℕ). n.low % t) twice,
              ap (λ (t : ℕ). r * t) twice,
              ap (λ (t : ℕ). t * p) sum,
              ap (λ (t : ℕ). t * p) (bit_value-low n k small),
            ),
            hr',
            hq',
          )
    ]

-- What the division of `total` returns: nothing if the quotient leaves 64 bits, else the quotient
-- and the remainder.
abbrev pub Quotes : ℕ → ℕ → Option (ℕ × ℕ) → Type 0
Quotes total d result =
    ((d * 2 ^ 64 ≤ total) × (result ≡ none))
    ⊎ ((q : ℕ) × (r : ℕ) × (result ≡ some (q, r)) × (q * d + r ≡ total) × (r < d) × (q < 2 ^ 64))

le-mul : (a p : ℕ) → 0 < p → a ≤ a * p
le-mul a p h = grind arith

unfold_divide : (n : UInt128) (d : ℕ) → (d == 0) ≡ false → divide_wide n d ≡ divide_loop 128 n d 0 0
unfolding divide_wide
unfold_divide n d h = rw (h, divide_wide)

-- The rounds on the upper word, with no bit of the quotient set.
high_rounds :
    (k : ℕ) (n : UInt128) (d r : ℕ)
    → d < 2 ^ 64
    → r < d
    → n.low < 2 ^ 64
    → Quotes ((r * 2 ^ k + n.high % 2 ^ k) * 2 ^ 64 + n.low) d (divide_loop (k + 64) n d 0 r)
high_rounds zero n d r hd hr hn =
    let (q', r', result, exact, hr', hq') =
      low_rounds 64 n d 0 r 0 (omega arith) hd hr (omega arith) (omega arith) in
    inr (q', r', result, omega (arith, exact), hr', hq')
high_rounds (suc k) n d r hd hr hn =
    let p : ℕ = 2 ^ k in
    let twice : 2 ^ suc k ≡ p * 2 = pow-suc 2 k in
    let split = mod-double n.high p (pow_two_pos k) in
    let bit = ap (λ (t : ℕ). t * p) (bit_value-high n k) in
    let same = ap (λ (t : ℕ). n.high % t) twice in
    let scaled = ap (λ (t : ℕ). r * t) twice in
    let index : suc k + 64 ≡ suc (64 + k) = omega arith in
    let index' : 64 + k ≡ k + 64 = omega arith in
    elim (step_cases (divide_step n d (64 + k) r)) [
      | inl (s, round) ↦
          let (sum, hs) = divide_step-true n d (64 + k) r s hd hr round in
          let large : d ≤ d * p = le-mul (d) p (pow_two_pos k) in
          inl (
            omega (arith, split, bit, same, scaled, ap (λ (t : ℕ). t * p) sum, large),
            rw index (round_overflow (64 + k) n d 0 r s (omega arith) round),
          )
      | inr (s, round) ↦
          let (sum, hs) = divide_step-false n d (64 + k) r s hd hr round in
          let total : (r * 2 ^ suc k + n.high % 2 ^ suc k) * 2 ^ 64 + n.low
              ≡ (s * 2 ^ k + n.high % 2 ^ k) * 2 ^ 64 + n.low =
            omega (arith, split, bit, same, scaled, ap (λ (t : ℕ). t * p) sum) in
          rw (total, index, round_clear (64 + k) n d 0 r s round, index')
            (high_rounds k n d s hd hs hn)
    ]

-- For words and a positive divisor of 64 bits, long division returns nothing exactly when the quotient leaves 64 bits, and else the quotient
-- and the remainder.
pub divide_wide-Quotes :
    (n : UInt128) (d : ℕ)
    → 0 < d
    → d < 2 ^ 64
    → n.high < 2 ^ 64
    → n.low < 2 ^ 64
    → Quotes (value n) d (divide_wide n d)
divide_wide-Quotes n d pos hd hh hl =
    let nonzero : (d == 0) ≡ false = ground arith in
    let high : n.high % 2 ^ 64 ≡ n.high = mod-eq_of_lt hh in
    let start : (0 * 2 ^ 64 + n.high % 2 ^ 64) * 2 ^ 64 + n.low ≡ value n = omega (arith, high) in
    let loop : divide_wide n d ≡ divide_loop (64 + 64) n d 0 0 = unfold_divide n d nonzero in
    rw (loop, ← start) (high_rounds 64 n d 0 hd pos hl)
