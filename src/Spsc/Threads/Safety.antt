-- ===== src/Spsc/Threads/Safety.antt =====
-- The ring under every schedule of its two threads.
use native.Mathlib.Nat.{mod-add-mod, mod-eq_of_lt}
use mathlib.Core.List.{append_assoc}
use mathlib.Core.Path.{subst}
use options_engine.Prelude.{
  ℕ, zero, suc, ◌+◌, ◌%◌, ◌<◌, ◌≡◌, refl, ap, sym, ◌∙◌, inl, inr, List, [], ◌∷◌, ◌++◌, arith, ◌==◌,
  Bool-cases, length,
}
use options_engine.Prelude.Arrays.{Array, update_self}
use options_engine.Spsc.{construct}
use options_engine.Spsc.Window.{window, length-window, window-update, window-snoc}
use options_engine.Spsc.Threads.{
  Producer, Consumer, Shared, Turn, produce, consume, produce_step, consume_step, step, run, start,
}
use options_engine.Spsc.Threads.Invariant.{
  test-false, ProducerOk, ConsumerOk, IsSafe, consumer-update, consumer-grow, producer-shrink,
  seen-room, seen-full, seen-item, seen-empty,
}

module _ {A : Type 0} (cap : ℕ) where
  produce_step-IsSafe :
      (s : Shared A) (p : Producer A) (a : A)
      → s.producer ≡ p
      → IsSafe cap s
      → IsSafe cap (produce_step cap p a s)
  unfolding produce_step
  produce_step-IsSafe s Producer.idle a e (pos, n, v) =
      elim (Bool-cases ((s.ring.write_pos + 1) % cap == s.ring.read_pos)) [
        | inl t ↦ rw t (pos, n, v)
        | inr t ↦ rw t (
          pos,
          n,
          record {
            read = v.read;
            write = v.write;
            room = v.room;
            history = v.history;
            producer = seen-room cap s pos n v (test-false _ _ t);
            consumer = v.consumer;
          },
        )
      ]
  produce_step-IsSafe s (Producer.checked b) a e (pos, n, v) =
      let h : suc n < cap = subst (ProducerOk cap s.ring.buffer pos n) e v.producer in
      (
        pos,
        n,
        record {
          read = v.read;
          write = v.write;
          room = v.room;
          history =
              rw
                (
                  v.write,
                  window-update cap s.ring.buffer pos n (pos + n) b (omega arith) (omega arith)
                      (omega arith),
                )
                v.history;
          producer = (h, rw v.write (update_self s.ring.buffer ((pos + n) % cap) b));
          consumer = rw v.write (consumer-update cap s.ring.buffer pos n b s.consumer h v.consumer);
        },
      )
  produce_step-IsSafe s (Producer.written b) a e (pos, n, v) =
      let h = subst (ProducerOk cap s.ring.buffer pos n) e v.producer in
      (
        pos,
        suc n,
        record {
          read = v.read;
          write =
              ap (λ w. (w + 1) % cap) v.write
              ∙ mod-add-mod (pos + n) cap 1
              ∙ ap (λ k. k % cap) (omega arith);
          room = h.0;
          history =
              rw (window-snoc cap s.ring.buffer pos n, h.1, v.history) (append_assoc s.popped _ _);
          producer = tt;
          consumer = consumer-grow cap s.ring.buffer pos n s.consumer v.consumer;
        },
      )

  consume_step-IsSafe :
      (s : Shared A) (c : Consumer A)
      → s.consumer ≡ c
      → IsSafe cap s
      → IsSafe cap (consume_step cap c s)
  unfolding consume_step
  consume_step-IsSafe s Consumer.idle e (pos, n, v) =
      elim (Bool-cases (s.ring.read_pos == s.ring.write_pos)) [
        | inl t ↦ rw t (pos, n, v)
        | inr t ↦ rw t (
          pos,
          n,
          record {
            read = v.read;
            write = v.write;
            room = v.room;
            history = v.history;
            producer = v.producer;
            consumer = seen-item cap s pos n v (test-false _ _ t);
          },
        )
      ]
  consume_step-IsSafe s Consumer.checked e (pos, n, v) = (
    pos,
    n,
    record {
      read = v.read;
      write = v.write;
      room = v.room;
      history = v.history;
      producer = v.producer;
      consumer =
          (subst (ConsumerOk cap s.ring.buffer pos n) e v.consumer, ap s.ring.buffer (sym v.read));
    },
  )
  consume_step-IsSafe s (Consumer.loaded b) e (pos, zero, v) =
      absurd (omega (arith, (subst (ConsumerOk cap s.ring.buffer pos 0) e v.consumer).0))
  consume_step-IsSafe s (Consumer.loaded b) e (pos, suc n, v) =
      let h = subst (ConsumerOk cap s.ring.buffer pos (suc n)) e v.consumer in
      (
        pos + 1,
        n,
        record {
          read = ap (λ w. (w + 1) % cap) v.read ∙ mod-add-mod pos cap 1;
          write = v.write ∙ ap (λ k. k % cap) (omega arith);
          room = omega (arith, v.room);
          history =
              v.history
              ∙ ap (λ x. s.popped ++ x ∷ window cap s.ring.buffer (pos + 1) n) h.1
              ∙ sym (append_assoc s.popped (b ∷ []) _);
          producer = producer-shrink cap s.ring.buffer pos n s.producer v.producer;
          consumer = tt;
        },
      )

  run-IsSafe : (ts : List (Turn A)) (s : Shared A) → IsSafe cap s → IsSafe cap (run cap s ts)
  unfolding run step
  run-IsSafe [] s v = v
  run-IsSafe (produce a ∷ ts) s v =
      run-IsSafe ts (produce_step cap s.producer a s) (produce_step-IsSafe s s.producer a refl v)
  run-IsSafe (consume ∷ ts) s v =
      run-IsSafe ts (consume_step cap s.consumer s) (consume_step-IsSafe s s.consumer refl v)

  start-IsSafe : (raw : Array A) → 0 < cap → IsSafe cap (start raw)
  unfolding start construct
  start-IsSafe raw h = (
    0,
    0,
    record {
      read = sym (mod-eq_of_lt h);
      write = sym (mod-eq_of_lt h);
      room = h;
      history = refl;
      producer = tt;
      consumer = tt;
    },
  )

  -- The items in flight, and when each thread's test refuses.
  threads_pending :
      (raw : Array A) (ts : List (Turn A))
      → 0 < cap
      → let s = run cap (start raw) ts in
        (pending : List A) × (s.pushed ≡ s.popped ++ pending)
        × (length pending < cap)
        × ((s.ring.write_pos + 1) % cap ≡ s.ring.read_pos → suc (length pending) ≡ cap)
        × (s.ring.read_pos ≡ s.ring.write_pos → length pending ≡ 0)
  threads_pending raw ts h =
      let s = run cap (start raw) ts in
      let (pos, n, v) = run-IsSafe ts (start raw) (start-IsSafe raw h) in
      let len = length-window cap s.ring.buffer pos n in
      (
        window cap s.ring.buffer pos n,
        v.history,
        omega (arith, len, v.room),
        λ e. omega (arith, len, seen-full cap s pos n v e),
        λ e. omega (arith, len, seen-empty cap s pos n v e),
      )

  -- Under every schedule of the two threads' accesses to a new ring of `cap` entries, what has been popped
  -- is what was pushed first, in order, and fewer than `cap` items are in flight.
  pub threads_fifo :
      (raw : Array A) (ts : List (Turn A))
      → 0 < cap
      → let s = run cap (start raw) ts in
        (pending : List A) × (s.pushed ≡ s.popped ++ pending) × (length pending < cap)
  threads_fifo raw ts h =
      let (pending, order, room, _, _) = threads_pending raw ts h in (pending, order, room)

  -- After any schedule of the two threads' accesses to a new ring of `cap` entries, if the write
  -- position's successor is the read position, `cap - 1` items are in flight.
  pub threads_full :
      (raw : Array A) (ts : List (Turn A))
      → 0 < cap
      → ((run cap (start raw) ts).ring.write_pos + 1) % cap ≡ (run cap (start raw) ts).ring.read_pos
      → let s = run cap (start raw) ts in
        (pending : List A) × (s.pushed ≡ s.popped ++ pending) × (suc (length pending) ≡ cap)
  threads_full raw ts h e =
      let (pending, order, _, full, _) = threads_pending raw ts h in (pending, order, full e)
