-- ===== src/RingBuffer/Queue.antt =====
-- What the buffer promises: a queue that holds at most one value less than the capacity, of which
-- each thread sees the other's work late.
use trade_bot.Base.{List, [], length, some, ℕ, ◌++◌, ◌+◌, ◌<◌, ◌∷◌, ◌≡◌, ◌≤◌}
use trade_bot.RingBuffer.{Event, empty, popped, pushed, refused}

-- The queue, how many values have left it that the producer has not seen leave, and how many of its
-- values the consumer has seen.
pub record View {ℓ} (A : Type ℓ) : Type ℓ where
  pub unseen : ℕ
  pub held : List A
  pub available : ℕ

module _ {ℓ} {A : Type ℓ} where
  -- The queues after an event, of a queue that allows it: a push is refused only if what is held and
  -- what the producer has not seen leave fill the buffer, a pop takes the first value, and is refused
  -- only if the consumer has seen no value of the queue.
  pub data Allows (capacity : ℕ) : View A → Event A → View A → Type ℓ where
    pushes :
        {v : View A} {value : A}
        → v.unseen + length v.held + 1 < capacity
        → Allows capacity v (pushed value) (record v { held = v.held ++ (value ∷ []) })
    refuses :
        {v : View A} {value : A}
        → v.unseen + length v.held + 1 ≡ capacity
        → Allows capacity v (refused value) v
    pops :
        {v : View A} {value : A} {rest : List A} {fewer : ℕ}
        → v.held ≡ value ∷ rest
        → v.available ≡ fewer + 1
        → Allows capacity v
            (popped (some value))
            (record { unseen = v.unseen + 1; held = rest; available = fewer })
    finds_nothing : {v : View A} → v.available ≡ 0 → Allows capacity v empty v

  -- A sequence of events that leads from one queue to another. Without an event the producer sees
  -- values leave, and the consumer sees values of the queue.
  pub data History (capacity : ℕ) : View A → List (Event A) → View A → Type ℓ where
    done : {v : View A} → History capacity v [] v
    then_history :
        {v r s : View A} {event : Event A} {events : List (Event A)}
        → Allows capacity v event r
        → History capacity r events s
        → History capacity v (event ∷ events) s
    sees_leave :
        {v s : View A} {events : List (Event A)} (unseen : ℕ)
        → unseen ≤ v.unseen
        → History capacity (record v { unseen = unseen }) events s
        → History capacity v events s
    sees_values :
        {v s : View A} {events : List (Event A)} (available : ℕ)
        → v.available ≤ available
        → available ≤ length v.held
        → History capacity (record v { available = available }) events s
        → History capacity v events s

  pub History-append :
      {capacity : ℕ} {q r s : View A} {events later : List (Event A)}
      → History capacity q events r
      → History capacity r later s
      → History capacity q (events ++ later) s
  History-append done rest = rest
  History-append (then_history allowed first) rest =
      then_history allowed (History-append first rest)
  History-append (sees_leave unseen h first) rest = sees_leave unseen h (History-append first rest)
  History-append (sees_values available h k first) rest =
      sees_values available h k (History-append first rest)
