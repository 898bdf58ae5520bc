-- ===== src/RingBuffer/Arc.antt =====
-- The cells from the tail up to the head.
use native.Mathlib.Nat.{mod-eq_of_lt, mod_self}
use trade_bot.Base.{
  Bool-cases, List, [], arith, false, get_elem-set-other, get_elem?, inl, inr, length, ltb, ltb→lt,
  refl, set, some, subst, suc, true, zero, ℕ, ◌%◌, ◌++◌, ◌+◌, ◌<◌, ◌==◌, ◌∙◌, ◌∷◌, ◌≡◌, ◌≢◌, ◌≤◌,
  ◌⊎◌,
}
use trade_bot.RingBuffer.{advance, gap, increment}

pub increment-cases :
    (capacity i : ℕ)
    → i < capacity
    → ((i + 1 < capacity) × (increment capacity i ≡ i + 1))
      ⊎ ((i + 1 ≡ capacity) × (increment capacity i ≡ 0))
unfolding increment
increment-cases capacity i h = elim (Bool-cases (ltb (i + 1) capacity)) [
  | inl e ↦ let below : i + 1 < capacity = ltb→lt _ _ e in inl (below, mod-eq_of_lt below)
  | inr e ↦
      let last : i + 1 ≡ capacity = ground arith in
      inr (last, subst (λ c. (i + 1) % c ≡ 0) last (mod_self (i + 1)))
]

pub increment-lt : (capacity i : ℕ) → i < capacity → increment capacity i < capacity
increment-lt capacity i h = elim (increment-cases capacity i h) [
  | inl (below, e) ↦ omega arith
  | inr (last, e) ↦ omega arith
]

pub gap-increment :
    (capacity tail head : ℕ)
    → tail < capacity
    → head < capacity
    → 0 < gap capacity tail head
    → gap capacity (increment capacity tail) head + 1 ≡ gap capacity tail head
gap-increment capacity tail head ht hh h = elim (increment-cases capacity tail ht) [
  | inl (below, e) ↦ ground arith
  | inr (last, e) ↦ ground arith
]

pub gap-increment_head :
    (capacity tail head : ℕ)
    → tail < capacity
    → head < capacity
    → increment capacity head ≢ tail
    → gap capacity tail (increment capacity head) ≡ gap capacity tail head + 1
gap-increment_head capacity tail head ht hh h = elim (increment-cases capacity head hh) [
  | inl (below, e) ↦ ground arith
  | inr (last, e) ↦ ground arith
]

pub gap_full :
    (capacity tail head : ℕ)
    → tail < capacity
    → head < capacity
    → increment capacity head ≡ tail
    → gap capacity tail head + 1 ≡ capacity
gap_full capacity tail head ht hh h = elim (increment-cases capacity head hh) [
  | inl (below, e) ↦ ground arith
  | inr (last, e) ↦ ground arith
]

pub gap_space :
    (capacity tail head : ℕ)
    → tail < capacity
    → head < capacity
    → increment capacity head ≢ tail
    → gap capacity tail head + 1 < capacity
gap_space capacity tail head ht hh h =
    let after = gap-increment_head capacity tail head ht hh h in
    let below = increment-lt capacity head hh in ground (arith, after, below)

pub gap-lt : (capacity i j : ℕ) → i < capacity → j < capacity → gap capacity i j < capacity
gap-lt capacity i j hi hj = ground arith

pub gap-zero : (capacity i j : ℕ) → (i == j) ≡ true → gap capacity i j ≡ 0
gap-zero capacity i j h = ground arith

pub gap-positive :
    (capacity i j : ℕ) → i < capacity → j < capacity → (i == j) ≡ false → 0 < gap capacity i j
gap-positive capacity i j hi hj h = ground arith

pub advance-lt : (capacity n i : ℕ) → i < capacity → advance capacity n i < capacity
unfolding advance
advance-lt capacity zero i h = h
advance-lt capacity (suc n) i h =
    advance-lt capacity n (increment capacity i) (increment-lt capacity i h)

-- An index that advances comes closer to one ahead of it.
pub gap-advance :
    (capacity n i j : ℕ)
    → i < capacity
    → j < capacity
    → n ≤ gap capacity i j
    → gap capacity (advance capacity n i) j + n ≡ gap capacity i j
unfolding advance
gap-advance capacity zero i j hi hj h = omega arith
gap-advance capacity (suc n) i j hi hj h =
    let closer = gap-increment capacity i j hi hj (omega arith) in
    let rest =
      gap-advance capacity n (increment capacity i) j (increment-lt capacity i hi) hj
        (omega (arith, closer)) in
    omega (arith, closer, rest)

-- An index between two others that advances up to the second goes away from the first.
pub gap-advance_head :
    (capacity n t i j : ℕ)
    → t < capacity
    → i < capacity
    → j < capacity
    → gap capacity t i + gap capacity i j ≡ gap capacity t j
    → n ≤ gap capacity i j
    → gap capacity t (advance capacity n i) ≡ gap capacity t i + n
unfolding advance
gap-advance_head capacity zero t i j ht hi hj between h = omega arith
gap-advance_head capacity (suc n) t i j ht hi hj between h =
    let closer = gap-increment capacity i j hi hj (omega arith) in
    let apart : increment capacity i ≢ t =
      λ e. ground (arith, gap_full capacity t i ht hi e, gap-lt capacity t j ht hj, between, h) in
    let longer = gap-increment_head capacity t i ht hi apart in
    let rest =
      gap-advance_head capacity n t (increment capacity i) j ht (increment-lt capacity i hi) hj
        (omega (arith, closer, longer, between)) (omega (arith, closer)) in
    omega (arith, longer, rest)

module _ {ℓ} {A : Type ℓ} (capacity : ℕ) where
  -- The cells from an index on have the values of a queue.
  unfoldable pub Holds : List A → ℕ → List A → Type ℓ
  Holds cells i [] = cells ≡ cells
  Holds cells i (x ∷ xs) = (get_elem? cells i ≡ some x) × Holds cells (increment capacity i) xs

  -- A write to a cell beyond the queue leaves it as it is.
  pub Holds-set :
      (cells : List A) (i j : ℕ) (v : A) (q : List A)
      → i < capacity
      → j < capacity
      → length q ≤ gap capacity i j
      → Holds cells i q
      → Holds (set cells j v) i q
  unfolding Holds
  Holds-set cells i j v [] hi hj h holds = refl
  Holds-set cells i j v (x ∷ xs) hi hj h holds =
      let apart : j ≢ i = λ e. ground arith in
      let closer = gap-increment capacity i j hi hj (omega arith) in
      (
        get_elem-set-other cells j i v apart ∙ holds.0,
        Holds-set cells (increment capacity i) j v xs (increment-lt capacity i hi) hj
            (omega (arith, closer)) (holds.1),
      )

  -- A value in the first cell beyond the queue prolongs it.
  pub Holds-append :
      (cells : List A) (i j : ℕ) (v : A) (q : List A)
      → i < capacity
      → j < capacity
      → gap capacity i j ≡ length q
      → get_elem? cells j ≡ some v
      → Holds cells i q
      → Holds cells i (q ++ (v ∷ []))
  unfolding Holds
  Holds-append cells i j v [] hi hj h there holds =
      let same : i ≡ j = ground arith in (rw same there, refl)
  Holds-append cells i j v (x ∷ xs) hi hj h there holds =
      let closer = gap-increment capacity i j hi hj (omega arith) in
      (
        holds.0,
        Holds-append cells (increment capacity i) j v xs (increment-lt capacity i hi) hj
            (omega (arith, closer)) there (holds.1),
      )
