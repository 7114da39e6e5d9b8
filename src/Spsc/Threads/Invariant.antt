-- ===== src/Spsc/Threads/Invariant.antt =====
-- What holds between any two accesses of the threads.
use options_engine.Prelude.{
  ℕ, zero, suc, ◌+◌, ◌%◌, ◌<◌, ◌≡◌, refl, ap, sym, ◌∙◌, ◌≢◌, ℕ_discrete, true, false, ◌++◌, arith,
  ◌==◌,
}
use options_engine.Prelude.Arrays.{Array, update, update_ne}
use options_engine.Spsc.Window.{mod-ne, window}
use options_engine.Spsc.Fifo.{next-full, next-room}
use options_engine.Spsc.Threads.{Producer, Consumer, Shared}

pub test-true : (a b : ℕ) → (a == b) ≡ true → a ≡ b
test-true a b h = ground arith

pub test-false : (a b : ℕ) → (a == b) ≡ false → a ≢ b
test-false a b h = ground arith

module _ {A : Type 0} (cap : ℕ) where
  -- A producer past its test has a free entry, and past its store the payload is in it.
  abbrev pub ProducerOk : Array A → ℕ → ℕ → Producer A → Type 0
  ProducerOk f pos n Producer.idle = Unit {0}
  ProducerOk f pos n (Producer.checked b) = suc n < cap
  ProducerOk f pos n (Producer.written b) = (suc n < cap) × (f ((pos + n) % cap) ≡ b)

  abbrev pub ConsumerOk : Array A → ℕ → ℕ → Consumer A → Type 0
  ConsumerOk f pos n Consumer.idle = Unit {0}
  ConsumerOk f pos n Consumer.checked = 0 < n
  ConsumerOk f pos n (Consumer.loaded b) = (0 < n) × (f (pos % cap) ≡ b)

  -- `pos` items are popped for good and `n` are in flight.
  pub record InFlight (s : Shared A) (pos n : ℕ) : Type 0 where
    pub read : s.ring.read_pos ≡ pos % cap
    pub write : s.ring.write_pos ≡ (pos + n) % cap
    pub room : n < cap
    pub history : s.pushed ≡ s.popped ++ window cap s.ring.buffer pos n
    pub producer : ProducerOk s.ring.buffer pos n s.producer
    pub consumer : ConsumerOk s.ring.buffer pos n s.consumer

  abbrev pub IsSafe : Shared A → Type 0
  IsSafe s = (pos : ℕ) × (n : ℕ) × InFlight s pos n

  -- The consumer's claim survives the producer's store, which goes to another entry.
  pub consumer-update :
      (f : Array A) (pos n : ℕ) (b : A) (c : Consumer A)
      → suc n < cap
      → ConsumerOk f pos n c
      → ConsumerOk (update f ((pos + n) % cap) b) pos n c
  consumer-update f pos n b Consumer.idle h v = tt
  consumer-update f pos n b Consumer.checked h v = v
  consumer-update f pos n b (Consumer.loaded x) h v = (
    v.0,
    update_ne f ((pos + n) % cap) (pos % cap) b
          (λ e. mod-ne cap pos (pos + n) (omega arith) (omega (arith, v.0)) (omega arith) (sym e))
        ∙ v.1,
  )

  pub consumer-grow :
      (f : Array A) (pos n : ℕ) (c : Consumer A) → ConsumerOk f pos n c → ConsumerOk f pos (suc n) c
  consumer-grow f pos n Consumer.idle v = tt
  consumer-grow f pos n Consumer.checked v = omega arith
  consumer-grow f pos n (Consumer.loaded x) v = (omega arith, v.1)

  -- The producer's claim survives the consumer's release of the oldest item.
  pub producer-shrink :
      (f : Array A) (pos n : ℕ) (p : Producer A)
      → ProducerOk f pos (suc n) p
      → ProducerOk f (pos + 1) n p
  producer-shrink f pos n Producer.idle v = tt
  producer-shrink f pos n (Producer.checked b) v = omega arith
  producer-shrink f pos n (Producer.written b) v =
      let e : pos + 1 + n ≡ pos + suc n = omega arith in (omega (arith, v.0), rw e v.1)

  -- A ring that the producer's test passes has a free entry, and one that it refuses is full.
  pub seen-room :
      (s : Shared A) (pos n : ℕ)
      → InFlight s pos n
      → (s.ring.write_pos + 1) % cap ≢ s.ring.read_pos
      → suc n < cap
  seen-room s pos n v ne = elim (ℕ_discrete (suc n) cap) [
    | yes e ↦ absurd (ne (ap (λ w. (w + 1) % cap) v.write ∙ next-full cap pos n e ∙ sym v.read))
    | no k ↦ omega (arith, v.room)
  ]

  pub seen-full :
      (s : Shared A) (pos n : ℕ)
      → InFlight s pos n
      → (s.ring.write_pos + 1) % cap ≡ s.ring.read_pos
      → suc n ≡ cap
  seen-full s pos n v e = elim (ℕ_discrete (suc n) cap) [
    | yes k ↦ k
    | no k ↦ absurd (
        next-room cap pos n (omega (arith, v.room))
          (sym (ap (λ w. (w + 1) % cap) v.write) ∙ e ∙ v.read))
  ]

  -- Likewise for the consumer.
  pub seen-item :
      (s : Shared A) (pos n : ℕ) → InFlight s pos n → s.ring.read_pos ≢ s.ring.write_pos → 0 < n
  seen-item s pos zero v ne =
      let z : pos ≡ pos + 0 = omega arith in
      absurd (ne (v.read ∙ ap (λ k. k % cap) z ∙ sym v.write))
  seen-item s pos (suc n) v ne = omega arith

  pub seen-empty :
      (s : Shared A) (pos n : ℕ) → InFlight s pos n → s.ring.read_pos ≡ s.ring.write_pos → n ≡ 0
  seen-empty s pos zero v e = refl
  seen-empty s pos (suc n) v e = absurd (
      mod-ne cap pos (pos + suc n) (omega (arith, v.room)) (omega arith) (omega (arith, v.room))
        (sym v.read ∙ e ∙ v.write))
