-- ===== src/Mpmc/Threads.antt =====
-- include/core/mpmc_queue.hpp: many producers and consumers at once. A schedule says whose access is
-- next; `claimed` records the items in the order in which their positions were taken, and `delivered`
-- the finished calls of `try_pop` with the position of each.
pub mod Exact
pub mod Phases
pub mod Frame
pub mod Sound
pub mod Pushes
pub mod Pops
pub mod Safety
mod Tests
use options_engine.Prelude.{
  ℕ, zero, suc, ◌+◌, Bool, true, false, ◌&&◌, not, List, [], ◌∷◌, ◌++◌, ◌==◌, if◌then◌else◌,
}
use options_engine.Prelude.Arrays.{Array, update}
use options_engine.Mpmc.{Slot, Queue, PushPc, PopPc, construct, push_step, pop_step}

pub record System (A : Type 0) : Type 0 where
  pub queue : Queue A
  pub producers : Array (PushPc A)
  pub consumers : Array (PopPc A)
  pub claimed : List A
  pub delivered : List (ℕ × A)

-- A thread calls `try_push` or `try_pop` when its last call is done, or makes its next access; the flag
-- is a spurious failure of `compare_exchange_weak`.
pub data Turn (A : Type 0) : Type 0 where
  call_push : ℕ → A → Turn A
  push : ℕ → Bool → Turn A
  call_pop : ℕ → Turn A
  pop : ℕ → Bool → Turn A

abbrev pub push_done : {A : Type 0} → PushPc A → Bool
push_done PushPc.pushed = true
push_done PushPc.full = true
push_done (PushPc.start a) = false
push_done (PushPc.check a pos) = false
push_done (PushPc.claim a pos) = false
push_done (PushPc.write a pos) = false
push_done (PushPc.publish pos) = false

abbrev pub pop_done : {A : Type 0} → PopPc A → Bool
pop_done (PopPc.popped a) = true
pop_done PopPc.empty = true
pop_done PopPc.start = false
pop_done (PopPc.check pos) = false
pop_done (PopPc.claim pos) = false
pop_done (PopPc.read pos) = false
pop_done (PopPc.release pos a) = false

-- The item whose position the access takes.
unfoldable pub note_claim : {A : Type 0} → Bool → Queue A → PushPc A → List A → List A
note_claim weak q (PushPc.claim a pos) xs =
    if q.enqueue_pos == pos && not weak then xs ++ a ∷ [] else xs
note_claim weak q (PushPc.start a) xs = xs
note_claim weak q (PushPc.check a pos) xs = xs
note_claim weak q (PushPc.write a pos) xs = xs
note_claim weak q (PushPc.publish pos) xs = xs
note_claim weak q PushPc.pushed xs = xs
note_claim weak q PushPc.full xs = xs

-- The item that the access hands out.
unfoldable pub note_release : {A : Type 0} → PopPc A → List (ℕ × A) → List (ℕ × A)
note_release (PopPc.release pos a) ys = (pos, a) ∷ ys
note_release PopPc.start ys = ys
note_release (PopPc.check pos) ys = ys
note_release (PopPc.claim pos) ys = ys
note_release (PopPc.read pos) ys = ys
note_release (PopPc.popped a) ys = ys
note_release PopPc.empty ys = ys

module _ {A : Type 0} (capacity : ℕ) where
  unfoldable pub step : Turn A → System A → System A
  unfolding push_step pop_step note_claim note_release
  step (Turn.call_push k a) s =
      if push_done (s.producers k)
      then record s { producers = update s.producers k (PushPc.start a) }
      else s
  step (Turn.push k weak) s =
      let pc = s.producers k in
      let (q, pc') = push_step capacity weak s.queue pc in
      record s {
        queue = q;
        producers = update s.producers k pc';
        claimed = note_claim weak s.queue pc s.claimed;
      }
  step (Turn.call_pop k) s =
      if pop_done (s.consumers k)
      then record s { consumers = update s.consumers k PopPc.start }
      else s
  step (Turn.pop k weak) s =
      let pc = s.consumers k in
      let (q, pc') = pop_step capacity weak s.queue pc in
      record s {
        queue = q;
        consumers = update s.consumers k pc';
        delivered = note_release pc s.delivered;
      }

  unfoldable pub run : System A → List (Turn A) → System A
  unfolding step
  run s [] = s
  run s (t ∷ ts) = run (step t s) ts

  -- No thread has called yet.
  unfoldable pub start : Array A → System A
  unfolding construct
  start raw = record {
    queue = construct capacity raw;
    producers = λ k. PushPc.pushed;
    consumers = λ k. PopPc.empty;
    claimed = [];
    delivered = [];
  }
