-- ===== src/OAuth/Comparison.antt =====
-- The constant-time comparison against equality.
use Prim.Native.Nat.{bit_or, bit_xor}
use trade_bot.Base.{
  if◌then◌else◌, ==_iff, Bool, Bool-cases, [], ap, arith, false, inl, inr, length, ltb, ltb→lt, not,
  refl, suc, true, zero, ℕ, ◌&&◌, ◌<◌, ◌==◌, ◌∷◌, ◌≡◌,
}
use trade_bot.Gate7.{Bytes}
use trade_bot.Gate7.Names.{bytes_eq}
use trade_bot.OAuth.Guard.{constant_time_equal, difference}

-- The test holds of each number before the bound.
unfoldable every : (ℕ → Bool) → ℕ → Bool
every test zero = true
every test (suc bound) = if test bound then every test bound else false

every-holds :
    (test : ℕ → Bool) (bound : ℕ) → every test bound ≡ true → (i : ℕ) → i < bound → test i ≡ true
unfolding every
every-holds test zero checked i below = ground arith
every-holds test (suc bound) checked i below =
    ground (arith, every-holds test bound (ground arith) i)

same : Bool → Bool → Bool
same true b = b
same false b = not b

same-eq : (a b : Bool) → same a b ≡ true → a ≡ b
unfolding same
same-eq a b h = ground arith

-- The test holds of all pairs of bytes.
every_pair : (ℕ → ℕ → Bool) → Bool
every_pair test = every (λ x. every (test x) 256) 256

every_pair-holds :
    (test : ℕ → ℕ → Bool) (x y : ℕ) → every_pair test ≡ true → x < 256 → y < 256 → test x y ≡ true
unfolding every_pair
every_pair-holds test x y checked hx hy =
    every-holds (test x) 256 (every-holds (λ a. every (test a) 256) 256 checked x hx) y hy

xor_zero : (x y : ℕ) → x < 256 → y < 256 → (bit_xor x y == 0) ≡ (x == y)
unfolding every_pair every same
xor_zero x y hx hy =
    same-eq _ _ (every_pair-holds (λ a b. same (bit_xor a b == 0) (a == b)) x y refl hx hy)

or_zero : (x y : ℕ) → x < 256 → y < 256 → (bit_or x y == 0) ≡ ((x == 0) && (y == 0))
unfolding every_pair every same
or_zero x y hx hy =
    same-eq _ _
      (every_pair-holds (λ a b. same (bit_or a b == 0) ((a == 0) && (b == 0))) x y refl hx hy)

xor_byte : (x y : ℕ) → x < 256 → y < 256 → bit_xor x y < 256
unfolding every_pair every
xor_byte x y hx hy = ltb→lt _ _ (every_pair-holds (λ a b. ltb (bit_xor a b) 256) x y refl hx hy)

or_byte : (x y : ℕ) → x < 256 → y < 256 → bit_or x y < 256
unfolding every_pair every
or_byte x y hx hy = ltb→lt _ _ (every_pair-holds (λ a b. ltb (bit_or a b) 256) x y refl hx hy)

unfoldable pub all_bytes : Bytes → Bool
all_bytes [] = true
all_bytes (c ∷ cs) = ltb c 256 && all_bytes cs

and_assoc : (a b c : Bool) → ((a && b) && c) ≡ (a && (b && c))
and_assoc a b c = ground arith

difference-zero :
    (d : ℕ) (xs ys : Bytes)
    → d < 256
    → all_bytes xs ≡ true
    → all_bytes ys ≡ true
    → length xs ≡ length ys
    → (difference d xs ys == 0) ≡ ((d == 0) && bytes_eq xs ys)
unfolding difference bytes_eq all_bytes
difference-zero d [] [] hd hx hy h = ground arith
difference-zero d [] (y ∷ ys) hd hx hy h = ground arith
difference-zero d (x ∷ xs) [] hd hx hy h = ground arith
difference-zero d (x ∷ xs) (y ∷ ys) hd hx hy h =
    let lx : x < 256 = ground arith in
    let ly : y < 256 = ground arith in
    let rest =
      difference-zero (bit_or d (bit_xor x y)) xs ys
        (or_byte d (bit_xor x y) hd (xor_byte x y lx ly)) (ground arith) (ground arith)
        (ground arith) in
    rw (difference, rest, or_zero d (bit_xor x y) hd (xor_byte x y lx ly), xor_zero x y lx ly)
      (and_assoc (d == 0) (x == y) (bytes_eq xs ys))

bytes_eq-length : (xs ys : Bytes) → bytes_eq xs ys ≡ true → length xs ≡ length ys
unfolding bytes_eq
bytes_eq-length [] [] h = refl
bytes_eq-length [] (y ∷ ys) h = ground arith
bytes_eq-length (x ∷ xs) [] h = ground arith
bytes_eq-length (x ∷ xs) (y ∷ ys) h = ap suc (bytes_eq-length xs ys (ground arith))

-- On strings of bytes the comparison, which reads both strings to their end, decides whether they are
-- equal.
pub constant_time_equal-bytes_eq :
    (expected actual : Bytes)
    → all_bytes expected ≡ true
    → all_bytes actual ≡ true
    → constant_time_equal expected actual ≡ bytes_eq expected actual
unfolding constant_time_equal
constant_time_equal-bytes_eq expected actual he ha =
    elim (Bool-cases (length expected == length actual)) [
      | inl even ↦
          rw even (difference-zero 0 expected actual (omega arith) he ha ((==_iff _ _).0 even))
      | inr odd ↦ ground (arith, odd, bytes_eq-length expected actual)
    ]
