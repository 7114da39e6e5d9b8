-- ===== src/Spsc/Tests.antt =====
-- The ring's theorems on a ring of four entries.
use options_engine.Prelude.{
  ℕ, ◌<◌, ◌≡◌, refl, true, false, none, some, List, [], ◌∷◌, ◌++◌, arith, length,
}
use options_engine.Prelude.Arrays.{Array}
use options_engine.Spsc.{construct}
use options_engine.Spsc.Fifo.{
  Call, push, pop, pushed, popped, run_ring, run_fifo, run_ring-run_fifo,
}
use options_engine.Spsc.Threads.{Turn, produce, consume, run, start}
use options_engine.Spsc.Threads.Safety.{threads_fifo}

abbrev raw : Array ℕ
raw _ = 0

abbrev calls : List (Call ℕ)
calls = push 1 ∷ push 2 ∷ push 3 ∷ push 4 ∷ pop ∷ push 5 ∷ pop ∷ pop ∷ pop ∷ pop ∷ []

replies :
    run_fifo 4 [] calls
    ≡ pushed true
      ∷ pushed true
      ∷ pushed true
      ∷ pushed false
      ∷ popped (some 1)
      ∷ pushed true
      ∷ popped (some 2)
      ∷ popped (some 3)
      ∷ popped (some 5)
      ∷ popped none
      ∷ []
unfolding run_fifo
replies = refl

run_ring-run_fifo_example : run_ring 4 (construct raw) calls ≡ run_fifo 4 [] calls
run_ring-run_fifo_example = run_ring-run_fifo 4 raw calls (omega arith)

-- The consumer's load of 7 falls between the producer's two stores of 8.
abbrev schedule : List (Turn ℕ)
schedule =
    produce 7
    ∷ produce 7
    ∷ produce 7
    ∷ produce 8
    ∷ consume
    ∷ produce 8
    ∷ consume
    ∷ produce 8
    ∷ consume
    ∷ []

schedule_ends : (run 4 (start raw) schedule).pushed ≡ 7 ∷ 8 ∷ []
unfolding run start construct
schedule_ends = refl

threads_fifo_example :
    (pending : List ℕ) × ((run 4 (start raw) schedule).pushed
      ≡ (run 4 (start raw) schedule).popped ++ pending)
    × (length pending < 4)
threads_fifo_example = threads_fifo 4 raw schedule (omega arith)
