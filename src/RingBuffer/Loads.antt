-- ===== src/RingBuffer/Loads.antt =====
-- What a thread knows of the other's index after an acquire load.
use trade_bot.Base.{arith, refl, ℕ, ◌+◌, ◌<◌, ◌≡◌, ◌≢◌, ◌≤◌}
use trade_bot.RingBuffer.{advance, gap, increment, load, seen_of}
use trade_bot.RingBuffer.Arc.{
  advance-lt, gap-advance, gap-advance_head, gap-increment, gap-increment_head, gap-lt, gap_full,
}
use trade_bot.RingBuffer.Invariant.{Sees}

seen_of-le : (news stored : ℕ) → seen_of news stored ≤ stored
seen_of-le news stored = ground arith

seen_of-all : (news stored : ℕ) → stored ≤ news → seen_of news stored ≡ stored
seen_of-all news stored h = ground arith

module _ (capacity : ℕ) where
  -- The producer sees some of the values leave that it has not seen leave, all of them if it sees that
  -- many.
  pub producer_load :
      (tail head seen_tail seen_head unseen available news : ℕ)
      → tail < capacity
      → head < capacity
      → Sees capacity tail head seen_tail seen_head unseen available
      → (fewer : ℕ) × (fewer ≤ unseen)
        × (capacity ≤ news → fewer ≡ 0)
        × Sees capacity tail head (load capacity news seen_tail tail) seen_head fewer available
  unfolding load
  producer_load tail head seen_tail seen_head unseen available news ht hh sees =
      let n : ℕ = seen_of news (gap capacity seen_tail tail) in
      let le = seen_of-le news (gap capacity seen_tail tail) in
      let below = gap-lt capacity seen_tail tail sees.seen_tail_lt ht in
      let all : capacity ≤ news → n ≡ gap capacity seen_tail tail =
        λ h. seen_of-all news (gap capacity seen_tail tail) (omega (arith, below, h)) in
      let nearer = gap-advance capacity n seen_tail tail sees.seen_tail_lt ht le in
      let nearer_head =
        gap-advance capacity n seen_tail head sees.seen_tail_lt hh
          (omega (arith, le, sees.left, sees.filled)) in
      (
        gap capacity (advance capacity n seen_tail) tail,
        omega (arith, nearer, sees.left),
        (λ h. omega (arith, nearer, all h)),
        record {
          seen_tail_lt = advance-lt capacity n seen_tail sees.seen_tail_lt;
          seen_head_lt = sees.seen_head_lt;
          left = refl;
          filled = omega (arith, nearer, nearer_head, sees.left, sees.filled);
          known = sees.known;
          between = sees.between;
        },
      )

  -- The consumer sees some of the values of the queue, all of them if it sees that many.
  pub consumer_load :
      (tail head seen_tail seen_head unseen available news : ℕ)
      → tail < capacity
      → head < capacity
      → Sees capacity tail head seen_tail seen_head unseen available
      → (more : ℕ) × (available ≤ more)
        × (more ≤ gap capacity tail head)
        × (capacity ≤ news → more ≡ gap capacity tail head)
        × Sees capacity tail head seen_tail (load capacity news seen_head head) unseen more
  unfolding load
  consumer_load tail head seen_tail seen_head unseen available news ht hh sees =
      let n : ℕ = seen_of news (gap capacity seen_head head) in
      let le = seen_of-le news (gap capacity seen_head head) in
      let below = gap-lt capacity seen_head head sees.seen_head_lt hh in
      let all : capacity ≤ news → n ≡ gap capacity seen_head head =
        λ h. seen_of-all news (gap capacity seen_head head) (omega (arith, below, h)) in
      let nearer = gap-advance capacity n seen_head head sees.seen_head_lt hh le in
      let farther =
        gap-advance_head capacity n tail seen_head head ht sees.seen_head_lt hh
          (omega (arith, sees.known, sees.between)) le in
      (
        available + n,
        omega arith,
        omega (arith, le, sees.between),
        (λ h. omega (arith, all h, sees.between)),
        record {
          seen_tail_lt = sees.seen_tail_lt;
          seen_head_lt = advance-lt capacity n seen_head sees.seen_head_lt;
          left = sees.left;
          filled = sees.filled;
          known = omega (arith, farther, sees.known);
          between = omega (arith, nearer, sees.between);
        },
      )

  -- A push within the producer's space keeps what the threads know.
  pub Sees-push :
      (tail head seen_tail seen_head unseen available : ℕ)
      → tail < capacity
      → head < capacity
      → unseen + gap capacity tail head + 1 < capacity
      → Sees capacity tail head seen_tail seen_head unseen available
      → (gap capacity tail (increment capacity head) ≡ gap capacity tail head + 1)
        × Sees capacity tail (increment capacity head) seen_tail seen_head unseen available
  Sees-push tail head seen_tail seen_head unseen available ht hh room sees =
      let free : (i : ℕ)
          → i < capacity
          → gap capacity i head + 1 < capacity
          → gap capacity i (increment capacity head) ≡ gap capacity i head + 1 =
        λ i hi small.
          gap-increment_head capacity i head hi hh
            (λ e. ground (arith, gap_full capacity i head hi hh e, small)) in
      let own = free tail ht (omega (arith, room)) in
      let first = free seen_tail sees.seen_tail_lt (omega (arith, room, sees.filled)) in
      let last = free seen_head sees.seen_head_lt (omega (arith, room, sees.between)) in
      (
        own,
        record {
          seen_tail_lt = sees.seen_tail_lt;
          seen_head_lt = sees.seen_head_lt;
          left = sees.left;
          filled = omega (arith, own, first, sees.filled);
          known = sees.known;
          between = omega (arith, own, last, sees.between);
        },
      )

  -- A pop of a value that the consumer has seen keeps what the threads know.
  pub Sees-pop :
      (tail head seen_tail seen_head unseen fewer : ℕ)
      → tail < capacity
      → head < capacity
      → Sees capacity tail head seen_tail seen_head unseen (fewer + 1)
      → (gap capacity (increment capacity tail) head + 1 ≡ gap capacity tail head)
        × Sees capacity (increment capacity tail) head seen_tail seen_head (unseen + 1) fewer
  Sees-pop tail head seen_tail seen_head unseen fewer ht hh sees =
      let own = gap-increment capacity tail head ht hh (omega (arith, sees.between)) in
      let known =
        gap-increment capacity tail seen_head ht sees.seen_head_lt (omega (arith, sees.known)) in
      let apart : increment capacity tail ≢ seen_tail = λ e. ground (
        arith,
        gap_full capacity seen_tail tail sees.seen_tail_lt ht e,
        gap-lt capacity seen_tail head sees.seen_tail_lt hh,
        sees.left,
        sees.filled,
        sees.between,
      ) in
      let left = gap-increment_head capacity seen_tail tail sees.seen_tail_lt ht apart in
      (
        own,
        record {
          seen_tail_lt = sees.seen_tail_lt;
          seen_head_lt = sees.seen_head_lt;
          left = omega (arith, left, sees.left);
          filled = omega (arith, own, sees.filled);
          known = omega (arith, known, sees.known);
          between = omega (arith, own, sees.between);
        },
      )
