-- ===== src/Mpmc/Threads/Tests.antt =====
-- Two producers and two consumers on a queue of two slots.
use options_engine.Prelude.{ℕ, ◌+◌, ◌≤◌, ◌≡◌, refl, true, false, List, [], ◌∷◌, ◌++◌, arith, length}
use options_engine.Prelude.Int.{◌-ℤ◌}
use options_engine.Prelude.Words.{add64}
use options_engine.Prelude.Arrays.{update}
use options_engine.Mpmc.Threads.{System, Turn, run, start}
use options_engine.Mpmc.Threads.Phases.{NoneTwice}
use options_engine.Mpmc.Threads.Safety.{FromClaimed, threads_in_order, threads_bounded}

-- Both producers see position 0 free; the first takes it, the second fails, sees position 1 and takes it,
-- and stores its item first.
abbrev pushes : List (Turn ℕ)
pushes =
    Turn.call_push 0 7
    ∷ Turn.call_push 1 8
    ∷ Turn.push 0 false
    ∷ Turn.push 1 false
    ∷ Turn.push 0 false
    ∷ Turn.push 1 false
    ∷ Turn.push 0 false
    ∷ Turn.push 1 false
    ∷ Turn.push 1 false
    ∷ Turn.push 1 false
    ∷ Turn.push 1 false
    ∷ Turn.push 1 false
    ∷ Turn.push 0 false
    ∷ Turn.push 0 false
    ∷ []

-- The first consumer takes position 0 after a spurious failure, the second position 1, and finishes first.
abbrev pops : List (Turn ℕ)
pops =
    Turn.call_pop 0
    ∷ Turn.call_pop 1
    ∷ Turn.pop 0 false
    ∷ Turn.pop 0 false
    ∷ Turn.pop 0 true
    ∷ Turn.pop 0 false
    ∷ Turn.pop 0 false
    ∷ Turn.pop 1 false
    ∷ Turn.pop 1 false
    ∷ Turn.pop 1 false
    ∷ Turn.pop 1 false
    ∷ Turn.pop 1 false
    ∷ Turn.pop 0 false
    ∷ Turn.pop 0 false
    ∷ []

abbrev ended : System ℕ
ended = run 2 (start 2 (λ _. 0)) (pushes ++ pops)

both : (ended.claimed ≡ 7 ∷ 8 ∷ []) × (ended.delivered ≡ (0, 7) ∷ (1, 8) ∷ [])
unfolding run start update ◌-ℤ◌ add64
both = (refl, refl)

threads_in_order_example : FromClaimed ended.claimed ended.delivered × NoneTwice ended.delivered
threads_in_order_example = threads_in_order 2 (omega arith) (λ _. 0) (pushes ++ pops) (omega arith)

threads_bounded_example :
    (length ended.claimed ≡ ended.queue.enqueue_pos)
    × (ended.queue.dequeue_pos ≤ ended.queue.enqueue_pos)
    × (ended.queue.enqueue_pos ≤ ended.queue.dequeue_pos + 2)
threads_bounded_example = threads_bounded 2 (omega arith) (λ _. 0) (pushes ++ pops) (omega arith)
