-- ===== src/RingBuffer.antt =====
-- The buffer of include/LockFreeRingBuffer.hpp: its methods cut at their accesses to what the two
-- threads share. An acquire load need not see the last store: it gives one of the values that the
-- other thread has stored since this thread's last load of that index, or the one loaded then.
pub mod Queue
pub mod Arc
pub mod Invariant
pub mod Accesses
pub mod Refinement
pub mod Loads
pub mod Fifo
pub mod Progress
use trade_bot.Base.{
  List, Option, [], get_elem?, if◌then◌else◌, leb, set, suc, zero, ℕ, ◌%◌, ◌++◌, ◌+◌, ◌-◌, ◌==◌,
  ◌∷◌,
}
mod Tests

-- `m_data`, `m_head` and `m_tail`. The capacity is an argument of the template, and so of each
-- function.
pub record RingBuffer {ℓ} (A : Type ℓ) : Type ℓ where
  pub cells : List A
  pub head : ℕ
  pub tail : ℕ

unfoldable pub increment : ℕ → ℕ → ℕ
increment capacity idx = (idx + 1) % capacity

-- How far one index is ahead of another.
abbrev pub gap : ℕ → ℕ → ℕ → ℕ
gap capacity tail head = if leb tail head then head - tail else capacity - (tail - head)

-- The index after so many stores.
unfoldable pub advance : ℕ → ℕ → ℕ → ℕ
unfolding increment
advance capacity zero i = i
advance capacity (suc stores) i = advance capacity stores (increment capacity i)

-- How many of those stores there were.
abbrev pub seen_of : ℕ → ℕ → ℕ
seen_of news stored = if leb news stored then news else stored

-- An acquire load of an index by the thread that does not store it: from the value that it loaded
-- last it sees that many further stores, or all that there were.
unfoldable pub load : ℕ → ℕ → ℕ → ℕ → ℕ
unfolding advance
load capacity news seen current = advance capacity (seen_of news (gap capacity seen current)) seen

module _ {ℓ} {A : Type ℓ} (capacity : ℕ) where
  unfoldable pub size : RingBuffer A → ℕ
  size b = if leb b.tail b.head then b.head - b.tail else capacity - (b.tail - b.head)

-- Where the producer stands in `push`, with what it has loaded: before it, after the test for
-- space, after the write of the cell.
pub data Producer {ℓ} (A : Type ℓ) : Type ℓ where
  ready : Producer A
  writing : A → ℕ → ℕ → Producer A
  publishing : A → ℕ → Producer A

-- Where the consumer stands in `pop`: before it, after the test for a value, after the read.
pub data Consumer {ℓ} (A : Type ℓ) : Type ℓ where
  ready : Consumer A
  reading : ℕ → Consumer A
  releasing : Option A → ℕ → Consumer A

-- The buffer after the stores so far, and the indices that the producer and the consumer loaded last.
pub record Machine {ℓ} (A : Type ℓ) : Type ℓ where
  pub buffer : RingBuffer A
  pub seen_tail : ℕ
  pub seen_head : ℕ
  pub producer : Producer A
  pub consumer : Consumer A

-- The next access of the producer, which pushes a value if it is not in `push`, or of the consumer.
-- The number is that of the further stores that an acquire load sees.
pub data Move {ℓ} (A : Type ℓ) : Type ℓ where
  produce : A → ℕ → Move A
  consume : ℕ → Move A

-- What a method returns, at the access that decides it.
pub data Event {ℓ} (A : Type ℓ) : Type ℓ where
  pushed : A → Event A
  refused : A → Event A
  popped : Option A → Event A
  empty : Event A

module _ {ℓ} {A : Type ℓ} (capacity : ℕ) where
  unfoldable pub produce_step : Machine A → Producer A → A → ℕ → Machine A × List (Event A)
  unfolding increment load
  produce_step m ready value news =
      let next : ℕ = increment capacity m.buffer.head in
      let seen : ℕ = load capacity news m.seen_tail m.buffer.tail in
      if next == seen
      then (record m { seen_tail = seen }, refused value ∷ [])
      else (record m { seen_tail = seen; producer = writing value m.buffer.head next }, [])
  produce_step m (writing value head next) other news = (
    record m {
      buffer = record (m.buffer) { cells = set m.buffer.cells head value };
      producer = publishing value next;
    },
    [],
  )
  produce_step m (publishing value next) other news =
      (record m { buffer = record (m.buffer) { head = next }; producer = ready }, pushed value ∷ [])

  unfoldable pub consume_step : Machine A → Consumer A → ℕ → Machine A × List (Event A)
  unfolding increment load
  consume_step m ready news =
      let seen : ℕ = load capacity news m.seen_head m.buffer.head in
      if m.buffer.tail == seen
      then (record m { seen_head = seen }, empty ∷ [])
      else (record m { seen_head = seen; consumer = reading m.buffer.tail }, [])
  consume_step m (reading tail) news =
      (record m { consumer = releasing (get_elem? m.buffer.cells tail) tail }, [])
  consume_step m (releasing out tail) news = (
    record m { buffer = record (m.buffer) { tail = increment capacity tail }; consumer = ready },
    popped out ∷ [],
  )

  unfoldable pub step : Machine A → Move A → Machine A × List (Event A)
  unfolding produce_step consume_step
  step m (produce value news) = produce_step m m.producer value news
  step m (consume news) = consume_step m m.consumer news

  -- Any interleaving of the two threads, with any loads.
  unfoldable pub run : Machine A → List (Move A) → Machine A × List (Event A)
  unfolding step
  run m [] = (m, [])
  run m (move ∷ moves) =
      let (next, events) = step m move in
      let (last, later) = run next moves in (last, events ++ later)
