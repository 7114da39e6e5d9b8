-- ===== src/Spsc.antt =====
-- include/core/spsc_queue.hpp: the single-producer single-consumer ring, each call run on its own.
-- `x & kMask` is `x % capacity`, since the capacity is a power of two. Positions are below the
-- capacity, so `wp + 1` does not wrap.
pub mod Window
pub mod Fifo
pub mod Threads
mod Tests
use options_engine.Prelude.{ℕ, ◌+◌, ◌%◌, Bool, true, false, Option, none, some, ◌==◌, if◌then◌else◌}
use options_engine.Prelude.Words.{sub64}
use options_engine.Prelude.Arrays.{Array, update}

pub record Ring (A : Type 0) : Type 0 where
  pub buffer : Array A
  pub write_pos : ℕ
  pub read_pos : ℕ

module _ {A : Type 0} where
  -- The buffer is not initialised.
  unfoldable pub construct : Array A → Ring A
  construct raw = record { buffer = raw; write_pos = 0; read_pos = 0 }

  -- The ring, and false when it is full.
  unfoldable pub try_push : ℕ → Ring A → A → Ring A × Bool
  try_push capacity q item =
      let next = (q.write_pos + 1) % capacity in
      if next == q.read_pos
      then (q, false)
      else (record q { buffer = update q.buffer q.write_pos item; write_pos = next }, true)

  -- The ring, and the item that goes to `out`; `none` when it is empty.
  unfoldable pub try_pop : ℕ → Ring A → Ring A × Option A
  try_pop capacity q =
      if q.read_pos == q.write_pos
      then (q, none)
      else (record q { read_pos = (q.read_pos + 1) % capacity }, some (q.buffer q.read_pos))

  unfoldable pub is_empty : Ring A → Bool
  is_empty q = q.read_pos == q.write_pos

  unfoldable pub size_approx : ℕ → Ring A → ℕ
  size_approx capacity q = sub64 q.write_pos q.read_pos % capacity
