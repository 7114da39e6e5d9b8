-- ===== src/Mpmc.antt =====
-- include/core/mpmc_queue.hpp: Vyukov's bounded queue. Each access to shared memory is one step of the
-- calling thread, so calls of many threads are interleavings of these steps. `pos & kMask` is
-- `pos % capacity`, since the capacity is a power of two.
pub mod Threads
use options_engine.Prelude.{
  ℕ, zero, suc, ◌+◌, ◌-◌, ◌%◌, ◌^◌, Bool, false, ◌&&◌, not, ltb, ◌==◌, if◌then◌else◌,
}
use options_engine.Prelude.Int.{ℤ, ◌-ℤ◌, eqb_ℤ, ltb_ℤ}
use options_engine.Prelude.Words.{add64}
use options_engine.Prelude.Arrays.{Array, update}

-- `static_cast<std::ptrdiff_t>` of a `std::size_t`.
abbrev pub signed64 : ℕ → ℤ
signed64 w = if ltb w (2 ^ 63) then ℤ.pos w else ℤ.negsuc (2 ^ 64 - w - 1)

pub record Slot (A : Type 0) : Type 0 where
  pub sequence : ℕ
  pub item : A

pub record Queue (A : Type 0) : Type 0 where
  pub enqueue_pos : ℕ
  pub dequeue_pos : ℕ
  pub slots : Array (Slot A)

-- Where a call of `try_push` stands.
pub data PushPc (A : Type 0) : Type 0 where
  start : A → PushPc A
  check : A → ℕ → PushPc A
  claim : A → ℕ → PushPc A
  write : A → ℕ → PushPc A
  publish : ℕ → PushPc A
  pushed full : PushPc A

-- Where a call of `try_pop` stands.
pub data PopPc (A : Type 0) : Type 0 where
  start : PopPc A
  check : ℕ → PopPc A
  claim : ℕ → PopPc A
  read : ℕ → PopPc A
  release : ℕ → A → PopPc A
  popped : A → PopPc A
  empty : PopPc A

module _ {A : Type 0} (capacity : ℕ) where
  -- The constructor's loop; the items are not initialised.
  unfoldable pub construct : Array A → Queue A
  construct raw = record {
    enqueue_pos = 0;
    dequeue_pos = 0;
    slots = λ i. record { sequence = i; item = raw i };
  }

  abbrev pub slot_at : Queue A → ℕ → Slot A
  slot_at q pos = q.slots (pos % capacity)

  abbrev pub put_slot : Queue A → ℕ → Slot A → Queue A
  put_slot q pos s = record q { slots = update q.slots (pos % capacity) s }

  -- One access of `try_push`. `weak` is a spurious failure of `compare_exchange_weak`.
  unfoldable pub push_step : Bool → Queue A → PushPc A → Queue A × PushPc A
  push_step weak q (PushPc.start a) = (q, PushPc.check a q.enqueue_pos)
  push_step weak q (PushPc.check a pos) =
      let diff = signed64 (slot_at q pos).sequence -ℤ signed64 pos in
      (
        q,
        if eqb_ℤ diff (ℤ.pos 0)
            then PushPc.claim a pos
            else if ltb_ℤ diff (ℤ.pos 0)
            then PushPc.full
            else PushPc.start a,
      )
  push_step weak q (PushPc.claim a pos) =
      if q.enqueue_pos == pos && not weak
      then (record q { enqueue_pos = add64 pos 1 }, PushPc.write a pos)
      else (q, PushPc.check a q.enqueue_pos)
  push_step weak q (PushPc.write a pos) =
      (put_slot q pos (record (slot_at q pos) { item = a }), PushPc.publish pos)
  push_step weak q (PushPc.publish pos) =
      (put_slot q pos (record (slot_at q pos) { sequence = add64 pos 1 }), PushPc.pushed)
  push_step weak q PushPc.pushed = (q, PushPc.pushed)
  push_step weak q PushPc.full = (q, PushPc.full)

  -- One access of `try_pop`.
  unfoldable pub pop_step : Bool → Queue A → PopPc A → Queue A × PopPc A
  pop_step weak q PopPc.start = (q, PopPc.check q.dequeue_pos)
  pop_step weak q (PopPc.check pos) =
      let diff = signed64 (slot_at q pos).sequence -ℤ signed64 (add64 pos 1) in
      (
        q,
        if eqb_ℤ diff (ℤ.pos 0)
            then PopPc.claim pos
            else if ltb_ℤ diff (ℤ.pos 0)
            then PopPc.empty
            else PopPc.start,
      )
  pop_step weak q (PopPc.claim pos) =
      if q.dequeue_pos == pos && not weak
      then (record q { dequeue_pos = add64 pos 1 }, PopPc.read pos)
      else (q, PopPc.check q.dequeue_pos)
  pop_step weak q (PopPc.read pos) = (q, PopPc.release pos (slot_at q pos).item)
  pop_step weak q (PopPc.release pos a) = (
    put_slot q pos (record (slot_at q pos) { sequence = add64 (add64 pos (capacity - 1)) 1 }),
    PopPc.popped a,
  )
  pop_step weak q (PopPc.popped a) = (q, PopPc.popped a)
  pop_step weak q PopPc.empty = (q, PopPc.empty)

  -- A call that no other thread interrupts, on fuel.
  unfoldable pub push_alone : ℕ → Queue A → PushPc A → Queue A × PushPc A
  unfolding push_step
  push_alone zero q pc = (q, pc)
  push_alone (suc n) q pc = let (q', pc') = push_step false q pc in push_alone n q' pc'

  unfoldable pub pop_alone : ℕ → Queue A → PopPc A → Queue A × PopPc A
  unfolding pop_step
  pop_alone zero q pc = (q, pc)
  pop_alone (suc n) q pc = let (q', pc') = pop_step false q pc in pop_alone n q' pc'

  unfoldable pub is_empty : Queue A → Bool
  is_empty q = q.enqueue_pos == q.dequeue_pos

  unfoldable pub size_approx : Queue A → ℕ
  size_approx q = if ltb q.dequeue_pos q.enqueue_pos then q.enqueue_pos - q.dequeue_pos else 0
