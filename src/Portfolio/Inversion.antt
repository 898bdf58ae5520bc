-- ===== src/Portfolio/Inversion.antt =====
-- What a method that returns has passed.
use trade_bot.Base.{
  Bool, Option, arith, false, if◌then◌else◌, inl, inr, none, refl, some, true, ℕ, ◌==◌, ◌≡◌, ◌⊎◌,
}
use trade_bot.Base.Int.{pos, ◌<ℤ◌, ◌≤ℤ◌}
use trade_bot.Financial.Values.{Tag, Value}
use trade_bot.Portfolio.{Failure, PositionState, Result, require_value, returns, throws, ◌>>=◌}
use trade_bot.Portfolio.Trades.{max_int, nonnegative_value, or_throw, positive_value}
use trade_bot.Portfolio.Closing.{require_counters}

pub >>=-returns :
    {A B : Type 0} (m : Result A) (f : A → Result B) (b : B)
    → (m >>= f) ≡ returns b
    → (a : A) × (m ≡ returns a) × (f a ≡ returns b)
>>=-returns (returns a) f b h = (a, refl, h)
>>=-returns (throws e) f b h = cc

pub after_required :
    {A B : Type 0} (o : Option A) (f : A → Result B) (b : B)
    → (require_value o >>= f) ≡ returns b
    → (a : A) × (o ≡ some a) × (f a ≡ returns b)
after_required none f b h = cc
after_required (some a) f b h = (a, refl, h)

pub after_or_throw :
    {A B : Type 0} (e : Failure) (o : Option A) (f : A → Result B) (b : B)
    → (or_throw e o >>= f) ≡ returns b
    → (a : A) × (o ≡ some a) × (f a ≡ returns b)
after_or_throw e none f b h = cc
after_or_throw e (some a) f b h = (a, refl, h)

-- `if (g) throw`.
pub after_guard :
    {B : Type 0} (g : Bool) (e : Failure) (rest : Result B) (b : B)
    → (if g then throws e else rest) ≡ returns b
    → (g ≡ false) × (rest ≡ returns b)
after_guard true e rest b h = cc
after_guard false e rest b h = (refl, h)

pub after_if :
    {A : Type 0} (g : Bool) (x y z : A)
    → (if g then x else y) ≡ z
    → ((g ≡ true) × (x ≡ z)) ⊎ ((g ≡ false) × (y ≡ z))
after_if true x y z h = inl (refl, h)
after_if false x y z h = inr (refl, h)

pub returned : {A : Type 0} (a b : A) → returns a ≡ returns b → a ≡ b
returned a b h = cc

pub positive_value-some :
    {t : Tag} (o : Option (Value t)) (v : Value t)
    → positive_value o ≡ some v
    → (o ≡ some v) × (pos 0 <ℤ v.units)
positive_value-some none v h = cc
positive_value-some (some a) v h = (ground arith, ground arith)

pub nonnegative_value-some :
    {t : Tag} (o : Option (Value t)) (v : Value t)
    → nonnegative_value o ≡ some v
    → (o ≡ some v) × (pos 0 ≤ℤ v.units)
nonnegative_value-some none v h = cc
nonnegative_value-some (some a) v h = (ground arith, ground arith)

pub after_counters :
    {A : Type 0} (trades : ℕ) (o : Option PositionState) (round_trips : ℕ) (a b : A)
    → require_counters trades o round_trips (returns a) ≡ returns b
    → a ≡ b
after_counters trades none round_trips a b h =
    let (_, h0) = after_guard (trades == max_int) _ _ b h in
    let (_, h1) = after_guard (round_trips == max_int) _ _ b h0 in returned a b h1
after_counters trades (some s) round_trips a b h =
    let (_, h0) = after_guard (trades == max_int) _ _ b h in returned a b h0

pub Result-cases :
    {A : Type 0} (m : Result A) → ((e : Failure) × (m ≡ throws e)) ⊎ ((a : A) × (m ≡ returns a))
Result-cases (returns a) = inr (a, refl)
Result-cases (throws e) = inl (e, refl)
