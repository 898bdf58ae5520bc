-- ===== src/RingBuffer/Fifo.antt =====
-- The order of the values, and the cells that the two threads use at the same time.
use mathlib.Core.List.{append-nil, append_assoc}
use trade_bot.Base.{
  List, Option, [], ap, arith, length, refl, some, subst, sym, ℕ, ◌++◌, ◌+◌, ◌<◌, ◌∙◌, ◌∷◌, ◌≡◌,
  ◌≢◌, ◌≤◌,
}
use trade_bot.RingBuffer.{
  Consumer, Event, Machine, Move, Producer, RingBuffer, empty, gap, popped, pushed, reading,
  refused, run, size, writing,
}
use trade_bot.RingBuffer.Arc.{gap-zero}
use trade_bot.RingBuffer.Queue.{
  Allows, History, View, done, finds_nothing, pops, pushes, refuses, sees_leave, sees_values,
  then_history,
}
use trade_bot.RingBuffer.Invariant.{Consumes, Produces, Stores}
use trade_bot.RingBuffer.Refinement.{
  new_machine, new_machine-Represents, new_view, run-History, run-Refines,
}

-- The values of the pushes that succeeded, in order.
unfoldable pub values_pushed {ℓ} : {A : Type ℓ} → List (Event A) → List (Option A)
values_pushed [] = []
values_pushed (pushed value ∷ events) = some value ∷ values_pushed events
values_pushed (refused value ∷ events) = values_pushed events
values_pushed (popped out ∷ events) = values_pushed events
values_pushed (empty ∷ events) = values_pushed events

-- What the pops that did not find the buffer empty gave, in order.
unfoldable pub values_popped {ℓ} : {A : Type ℓ} → List (Event A) → List (Option A)
values_popped [] = []
values_popped (popped out ∷ events) = out ∷ values_popped events
values_popped (pushed value ∷ events) = values_popped events
values_popped (refused value ∷ events) = values_popped events
values_popped (empty ∷ events) = values_popped events

unfoldable pub all_of {ℓ} : {A : Type ℓ} → List A → List (Option A)
all_of [] = []
all_of (x ∷ xs) = some x ∷ all_of xs

-- The cell that the producer writes at its next access, and the one that the consumer reads.
abbrev pub WritesTo {ℓ} : {A : Type ℓ} → Producer A → ℕ → Type ℓ
WritesTo {A = A} p cell = (value : A) × (next : ℕ) × (p ≡ writing value cell next)

abbrev pub ReadsFrom {ℓ} : {A : Type ℓ} → Consumer A → ℕ → Type ℓ
ReadsFrom c cell = c ≡ reading cell

module _ {ℓ} {A : Type ℓ} (capacity : ℕ) where
  all_of-append : (xs ys : List A) → all_of (xs ++ ys) ≡ all_of xs ++ all_of ys
  unfolding all_of
  all_of-append [] ys = refl
  all_of-append (x ∷ xs) ys = ap (λ l. some x ∷ l) (all_of-append xs ys)

  -- What is held and what comes is what leaves and what is held at the end.
  order_of_Allows :
      {v r : View A} {event : Event A} (events : List (Event A)) (last : List (Option A))
      → Allows capacity v event r
      → all_of r.held ++ values_pushed events ≡ values_popped events ++ last
      → all_of v.held ++ values_pushed (event ∷ events) ≡ values_popped (event ∷ events) ++ last
  unfolding values_pushed values_popped all_of
  order_of_Allows {v = v} events last (pushes {value = value} room) h =
      sym (append_assoc (all_of v.held) (some value ∷ []) (values_pushed events))
      ∙ ap (λ l. l ++ values_pushed events) (sym (all_of-append v.held (value ∷ [])))
      ∙ h
  order_of_Allows events last (refuses full) h = h
  order_of_Allows events last (pops {value = value} split available) h =
      ap (λ l. all_of l ++ values_pushed events) split ∙ ap (λ l. some value ∷ l) h
  order_of_Allows events last (finds_nothing nothing) h = h

  order_of_History :
      {v s : View A} {events : List (Event A)}
      → History capacity v events s
      → all_of v.held ++ values_pushed events ≡ values_popped events ++ all_of s.held
  unfolding values_pushed values_popped
  order_of_History {v = v} done = append-nil (all_of v.held)
  order_of_History (then_history {events = events} allowed rest) =
      order_of_Allows events _ allowed (order_of_History rest)
  order_of_History (sees_leave unseen h rest) = order_of_History rest
  order_of_History (sees_values available h k rest) = order_of_History rest

  -- With a capacity of at least two: whatever the interleaving and whatever the loads see, the values
  -- that were pushed are those that were popped, in the same order, followed by as many as `size` of
  -- the buffer then says, and these are fewer than the capacity.
  pub run-Fifo :
      (cells : List A) (moves : List (Move A))
      → length cells ≡ capacity
      → 1 < capacity
      → (held : List A) × (values_pushed (run capacity (new_machine capacity cells) moves).1
          ≡ values_popped (run capacity (new_machine capacity cells) moves).1 ++ all_of held)
        × (size capacity (run capacity (new_machine capacity cells) moves).0.buffer ≡ length held)
        × (length held < capacity)
  unfolding all_of
  run-Fifo cells moves len two =
      let (v, history, sized, bounded) = run-History capacity cells moves len two in
      (v.held, order_of_History history, sized, bounded)

  apart :
      (b : RingBuffer A) (p : Producer A) (c : Consumer A) (v : View A) (i j : ℕ)
      → Stores capacity b v.held
      → (v.available ≤ length v.held)
      → Produces capacity b (v.unseen + length v.held) p
      → Consumes capacity b v.available v.held c
      → WritesTo p i
      → ReadsFrom c j
      → i ≢ j
  apart b p c v i j stores known produces consumes (value, next, here) there e =
      let (eh, en, room, _) =
        subst (Produces capacity b (v.unseen + length v.held)) here produces in
      let (et, positive, _) = subst (Consumes capacity b v.available v.held) there consumes in
      absurd (
        let same : gap capacity b.tail b.head ≡ 0 =
          gap-zero capacity b.tail b.head (ground (arith, eh, et, e)) in
        omega (arith, same, stores.length_gap, known, positive))

  -- With a capacity of at least two: whatever the interleaving and whatever the loads see, the producer
  -- never stands before the write of a cell while the consumer stands before the read of the same one.
  pub run-Apart :
      (cells : List A) (moves : List (Move A)) (cell : ℕ)
      → length cells ≡ capacity
      → 1 < capacity
      → ¬ (
          WritesTo (run capacity (new_machine capacity cells) moves).0.producer cell
          × ReadsFrom (run capacity (new_machine capacity cells) moves).0.consumer cell)
  run-Apart cells moves cell len two (writes, reads) =
      let m : Machine A = (run capacity (new_machine capacity cells) moves).0 in
      let (v, history, rep) =
        run-Refines capacity (new_machine capacity cells) moves (new_view capacity)
          (new_machine-Represents capacity cells len two) in
      apart m.buffer m.producer m.consumer v cell cell rep.stores
        (omega (arith, rep.sees.between, rep.stores.length_gap)) rep.produces rep.consumes writes
        reads refl
