-- ===== src/Gate7/Price/Rounding.antt =====
-- The value of a normalized price, and that normalization keeps the order of prices.
use native.Mathlib.Nat.{
  le-div_iff_mul-le, div-lt_iff_lt-mul, mod-lt, div-add-mod', one-le-pow, pow-suc,
}
use trade_bot.Base.{
  ltb, ◌==◌, sym, ap, refl, Option-cases, Bool-cases, arith, inl, inr, leb, some, suc, zero, ℕ, ◌%◌,
  ◌*◌, ◌+◌, ◌-◌, ◌/◌, ◌<◌, ◌^◌, ◌∙◌, ◌≡◌, ◌≤◌,
}
use trade_bot.Base.Int.{pos, ℤ}
use trade_bot.Financial.Units.{magnitude}
use trade_bot.Broker.{Decimal64}
use trade_bot.Gate7.Price.{
  normalize_signed_scale5, normalize_spot_price, grow, max_int64, round_quotient_up, scale_down,
  scale_up, tens, times,
}

next_ten : (f k : ℕ) → f * 10 * 10 ^ k ≡ f * 10 ^ suc k
next_ten f k = rw (pow-suc 10 k) (grind arith)

grow-pow : (k f g : ℕ) → grow k f ≡ some g → g ≡ f * 10 ^ k
unfolding grow
grow-pow zero f g h = ground arith
grow-pow (suc k) f g h = ground (arith, grow-pow k (f * 10) g, next_ten f k)

tens-pow : (k f : ℕ) → tens k f ≡ f * 10 ^ k
unfolding tens
tens-pow zero f = omega arith
tens-pow (suc k) f = tens-pow k (f * 10) ∙ next_ten f k

-- `u` is `n` tens of thousandths brought to `digits` digits: exactly, or rounded half up.
pub data IsNormalized (n digits u : ℕ) : Type 0 where
  exact : 5 ≤ digits → u ≡ n * 10 ^ (digits - 5) → IsNormalized n digits u
  rounded :
      digits < 5
      → 2 * u * 10 ^ (5 - digits) ≤ 2 * n + 10 ^ (5 - digits)
      → 2 * n < 2 * u * 10 ^ (5 - digits) + 10 ^ (5 - digits)
      → IsNormalized n digits u

scale_up-exact : (n g : ℕ) (r : ℤ) → scale_up (pos n) g ≡ some r → r ≡ pos (n * g)
unfolding scale_up times
scale_up-exact n g r h = ground arith

scale_up-fits : (n g : ℕ) (r : ℤ) → 0 < g → scale_up (pos n) g ≡ some r → n * g ≤ max_int64
unfolding scale_up times
scale_up-fits n g r p h =
    let small : n ≤ max_int64 / g = ground arith in (le-div_iff_mul-le p).0 small

double : (a g : ℕ) → 2 * a * g ≡ 2 * (a * g)
double a g = grind arith

double_next : (a g : ℕ) → 2 * (a + 1) * g ≡ 2 * (a * g) + 2 * g
double_next a g = grind arith

scale_down-rounds :
    (n g : ℕ)
    → n ≤ max_int64
    → 2 ≤ g
    → (u : ℕ) × (scale_down (pos n) g ≡ some (pos u))
      × (u ≤ max_int64)
      × (2 * u * g ≤ 2 * n + g)
      × (2 * n < 2 * u * g + g)
unfolding scale_down round_quotient_up magnitude
scale_down-rounds n g small two =
    let lt = mod-lt n {m = g} (omega arith) in
    let whole = div-add-mod' n g in
    let least : n / g < max_int64 =
      (div-lt_iff_lt-mul {k = g} {x = n} {y = max_int64} (omega arith)).1 (omega arith) in
    elim (Bool-cases (leb g (n % g * 2))) [
      | inl up ↦ (
        n / g + 1,
        ground arith,
        ground arith,
        ground (arith, double_next (n / g) g),
        ground (arith, double_next (n / g) g),
      )
      | inr down ↦ (
        n / g,
        ground arith,
        ground arith,
        ground (arith, double (n / g) g),
        ground (arith, double (n / g) g),
      )
    ]

two-le-pow : (k : ℕ) → 0 < k → 2 ≤ 10 ^ k
two-le-pow zero h = omega arith
two-le-pow (suc k) h = rw (pow-suc 10 k) (omega (arith, one-le-pow k 10 (omega arith)))

abbrev Normal : ℕ → ℕ → ℤ → Type 0
Normal n d r = (u : ℕ) × (r ≡ pos u) × (u ≤ max_int64) × IsNormalized n d u

normalize_down :
    (n d : ℕ) (r : ℤ)
    → n ≤ max_int64
    → d < 5
    → scale_down (pos n) (tens (5 - d) 1) ≡ some r
    → Normal n d r
normalize_down n d r small below h =
    let (u, e, fits, least, most) =
      scale_down-rounds n (10 ^ (5 - d)) small (two-le-pow (5 - d) (omega arith)) in
    let same : tens (5 - d) 1 ≡ 10 ^ (5 - d) = tens-pow (5 - d) 1 ∙ omega arith in
    (u, ground (arith, sym h ∙ ap (scale_down (pos n)) same ∙ e), fits, rounded below least most)

normalize_up :
    (n d g : ℕ) (r : ℤ)
    → 5 ≤ d
    → grow (d - 5) 1 ≡ some g
    → scale_up (pos n) g ≡ some r
    → Normal n d r
normalize_up n d g r above grown h =
    let g_eq : g ≡ 10 ^ (d - 5) = grow-pow (d - 5) 1 g grown ∙ omega arith in
    let one : 1 ≤ 10 ^ (d - 5) = one-le-pow (d - 5) 10 (omega arith) in
    (n * g, scale_up-exact n g r h, scale_up-fits n g r (omega arith) h, exact above (rw g_eq refl))

normalize_same : (n d : ℕ) (r : ℤ) → n ≤ max_int64 → d ≡ 5 → r ≡ pos n → Normal n d r
normalize_same n d r small five same = (n, same, small, exact (omega arith) (rw five (omega arith)))

normalize_signed_scale5-Normal :
    (n d : ℕ) (r : ℤ)
    → n ≤ max_int64
    → normalize_signed_scale5 (pos n) (pos d) ≡ some r
    → Normal n d r
unfolding normalize_signed_scale5
normalize_signed_scale5-Normal n d r small h = elim (Bool-cases (ltb d 5)) [
  | inl below ↦ normalize_down n d r small (ground arith) (ground arith)
  | inr at_least ↦ elim (Bool-cases (d == 5)) [
    | inl same ↦ normalize_same n d r small (ground arith) (ground arith)
    | inr other ↦ elim (Option-cases (grow (d - 5) 1)) [
      | inl none_grown ↦ ground (arith, none_grown)
      | inr (g, grown) ↦ normalize_up n d g r (ground arith) grown (ground (arith, grown))
    ]
  ]
]

-- A wire price that is normalized has the digits asked for, a number of units that fits
-- `std::int64_t`, and the value of the wire price, rounded half up where digits are dropped.
pub normalize_spot_price-IsNormalized :
    (n digits : ℕ) (price : Decimal64)
    → normalize_spot_price n digits ≡ some price
    → (u : ℕ) × (price.units ≡ pos u)
      × (price.scale ≡ digits)
      × (u ≤ max_int64)
      × IsNormalized n digits u
unfolding normalize_spot_price
normalize_spot_price-IsNormalized n digits price h =
    elim (Option-cases (normalize_signed_scale5 (pos n) (pos digits))) [
      | inl refused ↦ ground (arith, refused)
      | inr (r, e) ↦
          let (u, same, fits, value) =
            normalize_signed_scale5-Normal n digits r (ground (arith, e)) e in
          (u, ground (arith, e, same), ground (arith, e), fits, value)
    ]
