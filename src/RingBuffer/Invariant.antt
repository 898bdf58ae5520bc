-- ===== src/RingBuffer/Invariant.antt =====
-- What holds of the buffer and of its two threads between two accesses.
use trade_bot.Base.{
  List, ap, arith, get_elem?, length, refl, some, sym, ℕ, ◌++◌, ◌+◌, ◌<◌, ◌∙◌, ◌∷◌, ◌≡◌,
}
use trade_bot.RingBuffer.{
  Consumer, Event, Machine, Producer, RingBuffer, gap, increment, publishing, reading, ready,
  releasing, writing,
}
use trade_bot.RingBuffer.Arc.{Holds}
use trade_bot.RingBuffer.Queue.{History, View}

-- The producer's view of the tail is behind it, and the head behind that view; the consumer's view
-- of the head is between the tail and the head.
pub record Sees (capacity tail head seen_tail seen_head unseen available : ℕ) : Type 0 where
  pub seen_tail_lt : seen_tail < capacity
  pub seen_head_lt : seen_head < capacity
  pub left : gap capacity seen_tail tail ≡ unseen
  pub filled : gap capacity seen_tail head ≡ unseen + gap capacity tail head
  pub known : gap capacity tail seen_head ≡ available
  pub between : available + gap capacity seen_head head ≡ gap capacity tail head

module _ {ℓ} {A : Type ℓ} (capacity : ℕ) where
  -- The cells from the tail up to the head are the queue.
  pub record Stores (b : RingBuffer A) (q : List A) : Type ℓ where
    pub head_lt : b.head < capacity
    pub tail_lt : b.tail < capacity
    pub cells_length : length b.cells ≡ capacity
    pub length_gap : gap capacity b.tail b.head ≡ length q
    pub holds : Holds capacity b.cells b.tail q

  -- What a thread has loaded is still so when it uses it; the number is that of the cells which the
  -- producer does not know to be free.
  abbrev pub Produces : RingBuffer A → ℕ → Producer A → Type ℓ
  Produces b n ready = b ≡ b
  Produces b n (writing value head next) =
      (head ≡ b.head) × (next ≡ increment capacity b.head) × (n + 1 < capacity) × (b ≡ b)
  Produces b n (publishing value next) =
      (next ≡ increment capacity b.head)
      × (n + 1 < capacity)
      × (get_elem? b.cells b.head ≡ some value)

  abbrev pub Consumes : RingBuffer A → ℕ → List A → Consumer A → Type ℓ
  Consumes b n q ready = b ≡ b
  Consumes b n q (reading tail) = (tail ≡ b.tail) × (0 < n) × (b ≡ b)
  Consumes b n q (releasing out tail) =
      (tail ≡ b.tail) × (0 < n) × (x : A) × (rest : List A) × (q ≡ x ∷ rest) × (out ≡ some x)

  pub record Represents (m : Machine A) (v : View A) : Type ℓ where
    pub stores : Stores m.buffer v.held
    pub sees :
        Sees capacity m.buffer.tail m.buffer.head m.seen_tail m.seen_head v.unseen v.available
    pub produces : Produces m.buffer (v.unseen + length v.held) m.producer
    pub consumes : Consumes m.buffer v.available v.held m.consumer

  -- A step that answers as the queue does, and after which the machine is the queue's.
  abbrev pub Refines : View A → Machine A × List (Event A) → Type ℓ
  Refines v result = (r : View A) × History capacity v result.1 r × Represents result.0 r

  -- The consumer does not see what the producer does to cells beyond the queue.
  pub Consumes-append :
      (b b' : RingBuffer A) (n : ℕ) (q : List A) (c : Consumer A) (more : List A)
      → b'.tail ≡ b.tail
      → Consumes b n q c
      → Consumes b' n (q ++ more) c
  Consumes-append b b' n q ready more same h = refl
  Consumes-append b b' n q (reading tail) more same (e, positive, _) =
      (e ∙ sym same, positive, refl)
  Consumes-append b b' n q (releasing out tail) more same (e, positive, x, rest, split, read) =
      (e ∙ sym same, positive, x, rest ++ more, ap (λ l. l ++ more) split, read)

  -- The producer keeps its space when a value leaves.
  pub Produces-tail :
      (b : RingBuffer A) (tail : ℕ) (n n' : ℕ) (p : Producer A)
      → n' ≡ n
      → Produces b n p
      → Produces (record b { tail = tail }) n' p
  Produces-tail b tail n n' ready same h = refl
  Produces-tail b tail n n' (writing value head next) same (eh, en, room, _) =
      (eh, en, omega (arith, room), refl)
  Produces-tail b tail n n' (publishing value next) same (en, room, there) =
      (en, omega (arith, room), there)
