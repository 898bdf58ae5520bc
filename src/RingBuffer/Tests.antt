-- ===== src/RingBuffer/Tests.antt =====
-- A buffer of three cells.
use trade_bot.Base.{List, [], arith, length, refl, some, ℕ, ◌++◌, ◌+◌, ◌<◌, ◌∷◌, ◌≡◌, ◌⊎◌}
use trade_bot.RingBuffer.{
  Move, consume, empty, increment, popped, produce, pushed, refused, run, size,
}
use trade_bot.RingBuffer.Queue.{History, View}
use trade_bot.RingBuffer.Refinement.{new_machine, new_view, run-History}
use trade_bot.RingBuffer.Fifo.{
  ReadsFrom, WritesTo, all_of, run-Apart, run-Fifo, values_popped, values_pushed,
}
use trade_bot.RingBuffer.Progress.{Pops, Pushes, run-Progress}

abbrev cells : List ℕ
cells = 0 ∷ 0 ∷ 0 ∷ []

-- The consumer tests, the producer pushes two values, and the consumer pops the first; a third push
-- does not see this and is refused, and a second pop does not see the second value and finds nothing.
abbrev moves : List (Move ℕ)
moves =
    consume 0
    ∷ produce 7 0
    ∷ produce 7 0
    ∷ produce 7 0
    ∷ produce 8 0
    ∷ consume 1
    ∷ produce 8 0
    ∷ produce 8 0
    ∷ consume 0
    ∷ consume 0
    ∷ produce 9 0
    ∷ consume 0
    ∷ []

interleaved :
    (run 3 (new_machine 3 cells) moves).1
    ≡ empty ∷ pushed 7 ∷ pushed 8 ∷ popped (some 7) ∷ refused 9 ∷ empty ∷ []
unfolding run increment
interleaved = refl

run-History_example :
    (v : View ℕ) × History 3 (new_view 3) (run 3 (new_machine 3 cells) moves).1 v
    × (size 3 (run 3 (new_machine 3 cells) moves).0.buffer ≡ length v.held)
    × (length v.held < 3)
run-History_example = run-History 3 cells moves refl (omega arith)

run-Fifo_example :
    (held : List ℕ) × (values_pushed (run 3 (new_machine 3 cells) moves).1
      ≡ values_popped (run 3 (new_machine 3 cells) moves).1 ++ all_of held)
    × (size 3 (run 3 (new_machine 3 cells) moves).0.buffer ≡ length held)
    × (length held < 3)
run-Fifo_example = run-Fifo 3 cells moves refl (omega arith)

-- The producer stands before the write of the cell 1, the consumer before the read of the cell 0.
abbrev both : List (Move ℕ)
both = produce 7 0 ∷ produce 7 0 ∷ produce 7 0 ∷ produce 8 0 ∷ consume 1 ∷ []

run-Apart_example : ¬ (
    WritesTo (run 3 (new_machine 3 cells) both).0.producer 1
    × ReadsFrom (run 3 (new_machine 3 cells) both).0.consumer 1)
run-Apart_example = run-Apart 3 cells both 1 refl (omega arith)

write_and_read :
    WritesTo (run 3 (new_machine 3 cells) both).0.producer 1
    × ReadsFrom (run 3 (new_machine 3 cells) both).0.consumer 0
unfolding run increment
write_and_read = ((8, 2, refl), refl)

run-Progress_example :
    ((size 3 (run 3 (new_machine 3 cells) moves).0.buffer ≡ 0)
      ⊎ Pops 3 (run 3 (new_machine 3 cells) moves).0 3)
    × ((size 3 (run 3 (new_machine 3 cells) moves).0.buffer + 1 ≡ 3)
        ⊎ Pushes 3 (run 3 (new_machine 3 cells) moves).0 4 3)
run-Progress_example = run-Progress 3 cells moves 4 3 refl (omega arith) (omega arith)
