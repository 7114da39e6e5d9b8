-- ===== src/Spsc/Threads.antt =====
-- The ring with its producer and its consumer running at once. Each access to shared memory is a step,
-- and a schedule says whose step is next; a release store with the acquire load that reads it orders
-- the payload like such an interleaving. `pushed` and `popped` record the finished calls.
pub mod Invariant
pub mod Safety
use options_engine.Prelude.{
  ℕ, zero, suc, ◌+◌, ◌%◌, ◌≤◌, ◌<◌, ◌≡◌, refl, ap, sym, ◌∙◌, ◌≢◌, Bool, true, false, Option, none,
  some, List, [], ◌∷◌, ◌++◌, arith, ◌==◌, if◌then◌else◌, Bool-cases, length,
}
use options_engine.Prelude.Arrays.{Array, update, update_self}
use options_engine.Spsc.{Ring, construct}
use options_engine.Spsc.Window.{mod-ne, window, length-window, window-update, window-snoc}
use options_engine.Spsc.Fifo.{next-full, next-room}

-- Where the producer stands in `try_push`, and the consumer in `try_pop`.
pub data Producer (A : Type 0) : Type 0 where
  idle : Producer A
  -- The ring was seen not to be full.
  checked : A → Producer A
  -- The payload is stored, the index not yet.
  written : A → Producer A

pub data Consumer (A : Type 0) : Type 0 where
  idle : Consumer A
  -- The ring was seen not to be empty.
  checked : Consumer A
  -- The payload is loaded, the index not yet stored.
  loaded : A → Consumer A

pub record Shared (A : Type 0) : Type 0 where
  pub ring : Ring A
  pub producer : Producer A
  pub consumer : Consumer A
  pub pushed : List A
  pub popped : List A

pub data Turn (A : Type 0) : Type 0 where
  produce : A → Turn A
  consume : Turn A

module _ {A : Type 0} (cap : ℕ) where
  -- The next access of the producer; an idle one starts to push `a`, or returns false at once.
  unfoldable pub produce_step : Producer A → A → Shared A → Shared A
  produce_step idle a s =
      if (s.ring.write_pos + 1) % cap == s.ring.read_pos
      then s
      else record s { producer = Producer.checked a }
  produce_step (Producer.checked b) a s = record s {
    ring = record (s.ring) { buffer = update s.ring.buffer s.ring.write_pos b };
    producer = Producer.written b;
  }
  produce_step (Producer.written b) a s = record s {
    ring = record (s.ring) { write_pos = (s.ring.write_pos + 1) % cap };
    producer = Producer.idle;
    pushed = s.pushed ++ b ∷ [];
  }

  unfoldable pub consume_step : Consumer A → Shared A → Shared A
  consume_step idle s =
      if s.ring.read_pos == s.ring.write_pos then s else record s { consumer = Consumer.checked }
  consume_step Consumer.checked s = record s {
    consumer = Consumer.loaded (s.ring.buffer s.ring.read_pos);
  }
  consume_step (Consumer.loaded b) s = record s {
    ring = record (s.ring) { read_pos = (s.ring.read_pos + 1) % cap };
    consumer = Consumer.idle;
    popped = s.popped ++ b ∷ [];
  }

  unfoldable pub step : Shared A → Turn A → Shared A
  unfolding produce_step consume_step
  step s (produce a) = produce_step s.producer a s
  step s consume = consume_step s.consumer s

  unfoldable pub run : Shared A → List (Turn A) → Shared A
  unfolding step
  run s [] = s
  run s (t ∷ ts) = run (step s t) ts

unfoldable pub start : {A : Type 0} → Array A → Shared A
start raw = record {
  ring = construct raw;
  producer = Producer.idle;
  consumer = Consumer.idle;
  pushed = [];
  popped = [];
}
