-- ===== src/RingBuffer/Progress.antt =====
-- Neither thread waits for the other, once it sees what the other has done.
use trade_bot.Base.{
  ==_iff, Bool-cases, List, [], ap, arith, false, inl, inr, length, refl, some, subst, suc, zero, ℕ,
  ◌+◌, ◌<◌, ◌==◌, ◌∙◌, ◌∷◌, ◌≡◌, ◌≤◌, ◌⊎◌,
}
use trade_bot.RingBuffer.{
  Consumer, Machine, Move, Producer, consume, consume_step, gap, increment, load, popped, produce,
  produce_step, publishing, pushed, reading, ready, releasing, run, size, step, writing,
}
use trade_bot.RingBuffer.Arc.{Holds, gap-lt, gap-zero, gap_full}
use trade_bot.RingBuffer.Invariant.{Represents}
use trade_bot.RingBuffer.Refinement.{new_machine, new_machine-Represents, new_view, run-Refines}
use trade_bot.RingBuffer.Queue.{View}
use trade_bot.RingBuffer.Loads.{consumer_load, producer_load}

module _ {ℓ} {A : Type ℓ} (capacity : ℕ) where
  -- The same access again and again.
  abbrev repeated : ℕ → Move A → List (Move A)
  repeated zero move = []
  repeated (suc n) move = move ∷ repeated n move

  -- A method that returns within three accesses of its own thread, when its load sees that many stores.
  abbrev pub Pops : Machine A → ℕ → Type ℓ
  Pops m news =
      (n : ℕ) × (value : A) × (n ≤ 3)
      × ((run capacity m (repeated n (consume news))).1 ≡ popped (some value) ∷ [])

  abbrev pub Pushes : Machine A → A → ℕ → Type ℓ
  Pushes m value news =
      (n : ℕ) × (written : A) × (n ≤ 3)
      × ((run capacity m (repeated n (produce value news))).1 ≡ pushed written ∷ [])

  consumer-Pops :
      (m : Machine A) (c : Consumer A) (v : View A) (x : A) (rest : List A) (news : ℕ)
      → capacity ≤ news
      → v.held ≡ x ∷ rest
      → Represents capacity (record m { consumer = c }) v
      → Pops (record m { consumer = c }) news
  unfolding run step consume_step Holds
  consumer-Pops m ready v x rest news latest held rep =
      let stores = rep.stores in
      let (more, grown, bounded, all, sees) =
        consumer_load capacity m.buffer.tail m.buffer.head m.seen_tail m.seen_head v.unseen
          v.available news stores.tail_lt stores.head_lt rep.sees in
      let there = subst (Holds capacity m.buffer.cells m.buffer.tail) held stores.holds in
      let filled : gap capacity m.buffer.tail (load capacity news m.seen_head m.buffer.head)
          ≡ suc (length rest) =
        sees.known ∙ all latest ∙ stores.length_gap ∙ ap length held in
      let test : (m.buffer.tail == load capacity news m.seen_head m.buffer.head) ≡ false =
        elim (Bool-cases (m.buffer.tail == load capacity news m.seen_head m.buffer.head)) [
          | inr other ↦ other
          | inl same ↦
              absurd (let nothing = gap-zero capacity _ _ same in omega (arith, nothing, filled))
        ] in
      (3, x, omega arith, rw (test, there.0) refl)
  consumer-Pops m (reading tail) v x rest news latest held rep =
      let there = subst (Holds capacity m.buffer.cells m.buffer.tail) held rep.stores.holds in
      (2, x, omega arith, rw (rep.consumes.0, there.0) refl)
  consumer-Pops m (releasing out tail) v x rest news latest held rep =
      let (e, positive, y, ys, split, read) = rep.consumes in (1, y, omega arith, rw read refl)

  producer-Pushes :
      (m : Machine A) (p : Producer A) (v : View A) (value : A) (news : ℕ)
      → capacity ≤ news
      → length v.held + 1 < capacity
      → Represents capacity (record m { producer = p }) v
      → Pushes (record m { producer = p }) value news
  unfolding run step produce_step
  producer-Pushes m ready v value news latest room rep =
      let stores = rep.stores in
      let (fewer, less, all, sees) =
        producer_load capacity m.buffer.tail m.buffer.head m.seen_tail m.seen_head v.unseen
          v.available news stores.tail_lt stores.head_lt rep.sees in
      let test : (increment capacity m.buffer.head == load capacity news m.seen_tail m.buffer.tail)
          ≡ false =
        elim (Bool-cases
          (increment capacity m.buffer.head == load capacity news m.seen_tail m.buffer.tail)) [
            | inr space ↦ space
            | inl full ↦ absurd (
                let filled =
                  gap_full capacity _ m.buffer.head sees.seen_tail_lt stores.head_lt
                    ((==_iff _ _).0 full) in
                omega (arith, filled, sees.filled, all latest, room, stores.length_gap))
          ] in
      (3, value, omega arith, rw test refl)
  producer-Pushes m (writing x head next) v value news latest room rep = (2, x, omega arith, refl)
  producer-Pushes m (publishing x next) v value news latest room rep = (1, x, omega arith, refl)

  popping :
      (m : Machine A) (v : View A) (q : List A) (news : ℕ)
      → capacity ≤ news
      → v.held ≡ q
      → Represents capacity m v
      → (size capacity m.buffer ≡ 0) ⊎ Pops m news
  unfolding size
  popping m v [] news latest held rep = inl (rep.stores.length_gap ∙ ap length held)
  popping m v (x ∷ rest) news latest held rep =
      inr (consumer-Pops m m.consumer v x rest news latest held rep)

  pushing :
      (m : Machine A) (v : View A) (value : A) (news : ℕ)
      → capacity ≤ news
      → Represents capacity m v
      → (size capacity m.buffer + 1 ≡ capacity) ⊎ Pushes m value news
  unfolding size
  pushing m v value news latest rep = elim (Bool-cases (length v.held + 1 == capacity)) [
    | inl full ↦ inl (ap (λ n. n + 1) rep.stores.length_gap ∙ (==_iff _ _).0 full)
    | inr space ↦
        let below : length v.held < capacity =
          subst (λ n. n < capacity) rep.stores.length_gap
            (gap-lt capacity _ _ rep.stores.tail_lt rep.stores.head_lt) in
        inr (producer-Pushes m m.producer v value news latest (ground (arith, space, below)) rep)
  ]

  -- With a capacity of at least two: after any interleaving with any loads, three accesses of the
  -- consumer at most complete a pop unless the buffer is empty, and three of the producer at most
  -- complete a push unless it is full, wherever the other thread has stopped, if the load of the
  -- method sees the other thread's last store, which a number of stores as large as the capacity
  -- does.
  pub run-Progress :
      (cells : List A) (moves : List (Move A)) (value : A) (news : ℕ)
      → length cells ≡ capacity
      → 1 < capacity
      → capacity ≤ news
      → ((size capacity (run capacity (new_machine capacity cells) moves).0.buffer ≡ 0)
          ⊎ Pops (run capacity (new_machine capacity cells) moves).0 news)
        × ((size capacity (run capacity (new_machine capacity cells) moves).0.buffer + 1 ≡ capacity)
            ⊎ Pushes (run capacity (new_machine capacity cells) moves).0 value news)
  run-Progress cells moves value news len two latest =
      let m : Machine A = (run capacity (new_machine capacity cells) moves).0 in
      let (v, history, rep) =
        run-Refines capacity (new_machine capacity cells) moves (new_view capacity)
          (new_machine-Represents capacity cells len two) in
      (popping m v v.held news latest refl rep, pushing m v value news latest rep)
