-- ===== src/RingBuffer/Refinement.antt =====
-- Every interleaving of one producer and one consumer is a history of the queue.
use trade_bot.Base.{List, [], arith, length, refl, subst, ℕ, ◌<◌, ◌∷◌, ◌≡◌}
use trade_bot.RingBuffer.{Machine, Move, consume, produce, ready, run, size, step}
use trade_bot.RingBuffer.Queue.{History, History-append, View, done}
use trade_bot.RingBuffer.Arc.{Holds, gap-lt}
use trade_bot.RingBuffer.Invariant.{Refines, Represents}
use trade_bot.RingBuffer.Accesses.{consume_step-Refines, produce_step-Refines}

module _ {ℓ} {A : Type ℓ} (capacity : ℕ) where
  pub step-Refines :
      (m : Machine A) (move : Move A) (v : View A)
      → Represents capacity m v
      → Refines capacity v (step capacity m move)
  unfolding step
  step-Refines m (produce value news) v rep =
      produce_step-Refines capacity m.buffer m.seen_tail m.seen_head m.producer m.consumer value
        news v rep
  step-Refines m (consume news) v rep =
      consume_step-Refines capacity m.buffer m.seen_tail m.seen_head m.producer m.consumer news
        v.unseen v.held v.available rep

  pub run-Refines :
      (m : Machine A) (moves : List (Move A)) (v : View A)
      → Represents capacity m v
      → Refines capacity v (run capacity m moves)
  unfolding run
  run-Refines m [] v rep = (v, done, rep)
  run-Refines m (move ∷ moves) v rep =
      let (r, first, next) = step-Refines m move v rep in
      let (s, rest, last) = run-Refines (step capacity m move).0 moves r next in
      (s, History-append first rest, last)

  -- A buffer of that many cells, before any call.
  abbrev pub new_machine : List A → Machine A
  new_machine cells = record {
    buffer = record { cells = cells; head = 0; tail = 0 };
    seen_tail = 0;
    seen_head = 0;
    producer = ready;
    consumer = ready;
  }

  -- The empty queue, of which nothing is unknown.
  abbrev pub new_view : View A
  new_view = record { unseen = 0; held = []; available = 0 }

  pub new_machine-Represents :
      (cells : List A)
      → length cells ≡ capacity
      → 1 < capacity
      → Represents capacity (new_machine cells) new_view
  unfolding Holds
  new_machine-Represents cells len two = record {
    stores = record {
      head_lt = omega arith;
      tail_lt = omega arith;
      cells_length = len;
      length_gap = ground arith;
      holds = refl;
    };
    sees = record {
      seen_tail_lt = omega arith;
      seen_head_lt = omega arith;
      left = ground arith;
      filled = ground arith;
      known = ground arith;
      between = ground arith;
    };
    produces = refl;
    consumes = refl;
  }

  -- With a capacity of at least two: whatever the order in which the accesses of one producer and
  -- one consumer interleave, and however late a load sees the other thread's stores, what `push` and
  -- `pop` return is a history of a first-in, first-out queue of at most one value less than the
  -- capacity: a push is refused only when the values of the queue and those that the producer has not
  -- seen leave fill the buffer, and a pop only when the consumer has seen no value of the queue.
  -- `size` of the buffer is then the length of that queue.
  pub run-History :
      (cells : List A) (moves : List (Move A))
      → length cells ≡ capacity
      → 1 < capacity
      → (v : View A) × History capacity new_view (run capacity (new_machine cells) moves).1 v
        × (size capacity (run capacity (new_machine cells) moves).0.buffer ≡ length v.held)
        × (length v.held < capacity)
  unfolding size
  run-History cells moves len two =
      let (v, history, rep) =
        run-Refines (new_machine cells) moves new_view (new_machine-Represents cells len two) in
      (
        v,
        history,
        rep.stores.length_gap,
        subst (λ n. n < capacity) rep.stores.length_gap
            (gap-lt capacity _ _ rep.stores.tail_lt rep.stores.head_lt),
      )
