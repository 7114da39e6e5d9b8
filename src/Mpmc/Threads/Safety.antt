-- ===== src/Mpmc/Threads/Safety.antt =====
-- What holds of the queue after any schedule of any number of producers and consumers.
use mathlib.Core.Path.{subst}
use native.Mathlib.Nat.{mod-lt, mod-eq_of_lt}
use options_engine.Prelude.{
  ℕ, ◌+◌, ◌%◌, ◌^◌, ◌≤◌, ◌<◌, ◌≡◌, refl, sym, inl, inr, Bool, true, not, ◌&&◌, ◌==◌, some, List, [],
  ◌∷◌, arith, length, get_elem?, Bool-cases,
}
use options_engine.Prelude.Arrays.{Array, update}
use options_engine.Mpmc.{Queue, PushPc, PopPc, construct, push_step, pop_step}
use options_engine.Mpmc.Threads.{
  System, Turn, push_done, pop_done, note_claim, note_release, step, run, start,
}
use options_engine.Mpmc.Threads.Exact.{
  exact_push, exact_pop, SmallPush, SmallPop, push_step-exact, pop_step-exact,
}
use options_engine.Mpmc.Threads.Phases.{Phase, IsCell, PushKnows, PopKnows, IsDelivery, NoneTwice}
use options_engine.Mpmc.Threads.Sound.{IsSound, IsSound-push_local, IsSound-pop_local}
use options_engine.Mpmc.Threads.Pushes.{exact_push-Keeps}
use options_engine.Mpmc.Threads.Pops.{exact_pop-Keeps}

-- Each delivery is of the item claimed at its position.
abbrev pub FromClaimed : {A : Type 0} → List A → List (ℕ × A) → Type 0
FromClaimed claimed [] = Unit {0}
FromClaimed claimed ((p, a) ∷ ys) = (get_elem? claimed p ≡ some a) × FromClaimed claimed ys

delivery-FromClaimed :
    {A : Type 0} (n : ℕ) (q : Queue A) (claimed : List A) (phase : Array Phase) (ys : List (ℕ × A))
    → IsDelivery n q claimed phase ys
    → FromClaimed claimed ys
delivery-FromClaimed n q claimed phase [] v = tt
delivery-FromClaimed n q claimed phase ((p, a) ∷ ys) v =
    (v.0, delivery-FromClaimed n q claimed phase ys v.2)

-- A slot's sequence is at most a round ahead of the positions taken.
cell-small :
    {A : Type 0} (n : ℕ) (q : Queue A) (xs : List A) (i : ℕ) (P : Phase)
    → q.dequeue_pos ≤ q.enqueue_pos
    → IsCell n q xs i P
    → (q.slots i).sequence ≤ q.enqueue_pos + n
cell-small n q xs i (Phase.free p) le (m, s, e, d) = omega (arith, s)
cell-small n q xs i (Phase.writing p k) le (m, s, e, d, r) = omega (arith, s)
cell-small n q xs i (Phase.full p) le (m, s, e, d, r, t) = omega (arith, s)
cell-small n q xs i (Phase.reading p k) le (m, s, e, d, r, t) = omega (arith, s)

exact_push-next :
    {A : Type 0} (n : ℕ) (weak : Bool) (q : Queue A) (pc : PushPc A)
    → (exact_push n weak q pc).0.enqueue_pos ≤ q.enqueue_pos + 1
unfolding exact_push
exact_push-next n weak q (PushPc.start a) = omega arith
exact_push-next n weak q (PushPc.check a pos) = omega arith
exact_push-next n weak q (PushPc.claim a pos) =
    elim (Bool-cases (q.enqueue_pos == pos && not weak)) [
      | inl t ↦ (let e = same q.enqueue_pos pos weak t in rw t (omega (arith, e)))
      | inr t ↦ rw t (omega arith)
    ]
  where
    same : (x y : ℕ) (w : Bool) → (x == y && not w) ≡ true → x ≡ y
    same x y w e = ground arith
exact_push-next n weak q (PushPc.write a pos) = omega arith
exact_push-next n weak q (PushPc.publish pos) = omega arith
exact_push-next n weak q PushPc.pushed = omega arith
exact_push-next n weak q PushPc.full = omega arith

exact_pop-same :
    {A : Type 0} (n : ℕ) (weak : Bool) (q : Queue A) (pc : PopPc A)
    → (exact_pop n weak q pc).0.enqueue_pos ≡ q.enqueue_pos
unfolding exact_pop
exact_pop-same n weak q PopPc.start = refl
exact_pop-same n weak q (PopPc.check pos) = refl
exact_pop-same n weak q (PopPc.claim pos) = elim (Bool-cases (q.dequeue_pos == pos && not weak)) [
  | inl t ↦ rw t
  | inr t ↦ rw t
]
exact_pop-same n weak q (PopPc.read pos) = refl
exact_pop-same n weak q (PopPc.release pos a) = refl
exact_pop-same n weak q (PopPc.popped a) = refl
exact_pop-same n weak q PopPc.empty = refl

module _ {A : Type 0} (n : ℕ) (big : 1 < n) where
  -- Some phases make the state sound, and at most `m` positions are taken.
  abbrev Sound : ℕ → System A → Type 0
  Sound m s = (phase : Array Phase) × IsSound n s phase × (s.queue.enqueue_pos ≤ m)

  module _ (m : ℕ) (room : m + n < 2 ^ 63) (s : System A) (phase : Array Phase)
      (v : IsSound n s phase) (le : s.queue.enqueue_pos ≤ m) where
    cell : (pos : ℕ) → IsCell n s.queue s.claimed (pos % n) (phase (pos % n))
    cell pos = v.cells (pos % n) (mod-lt pos (omega arith))

    seen : (pos : ℕ) → (s.queue.slots (pos % n)).sequence ≤ s.queue.enqueue_pos + n
    seen pos = cell-small n s.queue s.claimed (pos % n) (phase (pos % n)) v.order (cell pos)

    push-small :
        (k : ℕ) (pc : PushPc A) → PushKnows n s.queue s.claimed phase k pc → SmallPush n s.queue pc
    push-small k (PushPc.start a) own = tt
    push-small k (PushPc.check a pos) own = (omega (arith, own), omega (arith, seen pos))
    push-small k (PushPc.claim a pos) own = omega (arith, own.0)
    push-small k (PushPc.write a pos) own = tt
    push-small k (PushPc.publish pos) (h, item) =
        let (_, _, e, _, _) : IsCell n s.queue s.claimed (pos % n) (Phase.writing pos k) =
          subst (IsCell n s.queue s.claimed (pos % n)) h (cell pos) in
        omega arith
    push-small k PushPc.pushed own = tt
    push-small k PushPc.full own = tt

    pop-small :
        (k : ℕ) (pc : PopPc A) → PopKnows n s.queue s.claimed phase k pc → SmallPop n s.queue pc
    pop-small k PopPc.start own = tt
    pop-small k (PopPc.check pos) own = (omega (arith, own, v.order), omega (arith, seen pos))
    pop-small k (PopPc.claim pos) own = omega (arith, own.0, v.order)
    pop-small k (PopPc.read pos) own = tt
    pop-small k (PopPc.release pos a) (h, item) =
        let (_, _, e, _, _, _) : IsCell n s.queue s.claimed (pos % n) (Phase.reading pos k) =
          subst (IsCell n s.queue s.claimed (pos % n)) h (cell pos) in
        omega arith
    pop-small k (PopPc.popped a) own = tt
    pop-small k PopPc.empty own = tt

    -- The state after an access of the producer, or of the consumer, `k`.
    abbrev after_push : ℕ → Bool → Queue A × PushPc A → System A
    after_push k weak r = record s {
      queue = r.0;
      producers = update s.producers k r.1;
      claimed = note_claim weak s.queue (s.producers k) s.claimed;
    }

    abbrev after_pop : ℕ → Queue A × PopPc A → System A
    after_pop k r = record s {
      queue = r.0;
      consumers = update s.consumers k r.1;
      delivered = note_release (s.consumers k) s.delivered;
    }

    push-Sound :
        (k : ℕ) (weak : Bool)
        → Sound (m + 1) (after_push k weak (push_step n weak s.queue (s.producers k)))
    push-Sound k weak =
        let pc = s.producers k in
        let (phase', v') = exact_push-Keeps n big s phase v k weak pc (v.producers k) in
        subst (λ r. Sound (m + 1) (after_push k weak r))
          (sym (push_step-exact n s.queue big weak pc (push-small k pc (v.producers k))))
          (phase', v', omega (arith, exact_push-next n weak s.queue pc))

    pop-Sound :
        (k : ℕ) (weak : Bool)
        → Sound (m + 1) (after_pop k (pop_step n weak s.queue (s.consumers k)))
    pop-Sound k weak =
        let pc = s.consumers k in
        let (phase', v') = exact_pop-Keeps n big s phase v k weak pc (v.consumers k) in
        subst (λ r. Sound (m + 1) (after_pop k r))
          (sym (pop_step-exact n s.queue big weak pc (pop-small k pc (v.consumers k))))
          (phase', v', omega (arith, exact_pop-same n weak s.queue pc))

  step-Sound :
      (t : Turn A) (m : ℕ) (s : System A) → m + n < 2 ^ 63 → Sound m s → Sound (m + 1) (step n t s)
  unfolding step
  step-Sound (Turn.call_push k a) m s room (phase, v, le) =
      elim (Bool-cases (push_done (s.producers k))) [
        | inl t ↦
            rw (t, step) (phase, IsSound-push_local n s phase k (PushPc.start a) tt v, omega arith)
        | inr t ↦ rw (t, step) (phase, v, omega arith)
      ]
  step-Sound (Turn.push k weak) m s room (phase, v, le) = push-Sound m room s phase v le k weak
  step-Sound (Turn.call_pop k) m s room (phase, v, le) =
      elim (Bool-cases (pop_done (s.consumers k))) [
        | inl t ↦ rw (t, step) (phase, IsSound-pop_local n s phase k PopPc.start tt v, omega arith)
        | inr t ↦ rw (t, step) (phase, v, omega arith)
      ]
  step-Sound (Turn.pop k weak) m s room (phase, v, le) = pop-Sound m room s phase v le k weak

  run-Sound :
      (ts : List (Turn A)) (m : ℕ) (s : System A)
      → m + length ts + n < 2 ^ 63
      → Sound m s
      → Sound (m + length ts) (run n s ts)
  unfolding run
  run-Sound [] m s room (phase, v, le) = (phase, v, omega arith)
  run-Sound (t ∷ ts) m s room v =
      let (phase, u, le) =
        run-Sound ts (m + 1) (step n t s) (omega arith) (step-Sound t m s (omega arith) v) in
      (phase, u, omega arith)

  start-Sound : (raw : Array A) → Sound 0 (start n raw)
  unfolding start construct
  start-Sound raw = (
    (λ i. Phase.free i),
    record {
      length = refl;
      order = omega arith;
      room = omega arith;
      cells = λ i small. (mod-eq_of_lt small, refl, omega arith, omega arith);
      producers = λ k. tt;
      consumers = λ k. tt;
      delivered = tt;
      once = tt;
    },
    omega arith,
  )

  -- Whatever any number of producers and consumers do, and however their accesses interleave, on a queue
  -- of more than one slot, while the accesses and the slots together are fewer than 2 ^ 63: no position
  -- is delivered twice, and the item that a pop delivers for its position is the one whose push took that
  -- position.
  pub threads_in_order :
      (raw : Array A) (ts : List (Turn A))
      → length ts + n < 2 ^ 63
      → let s = run n (start n raw) ts in FromClaimed s.claimed s.delivered × NoneTwice s.delivered
  threads_in_order raw ts few =
      let s = run n (start n raw) ts in
      let (phase, v, le) = run-Sound ts 0 (start n raw) (omega arith) (start-Sound raw) in
      (delivery-FromClaimed n s.queue s.claimed phase s.delivered v.delivered, v.once)

  -- In every interleaving, on a queue of more than one slot, while the accesses and the slots together are
  -- fewer than 2 ^ 63: as many positions are taken for pushing as items were claimed, those taken for
  -- popping are among them, and at most as many as there are slots are taken for pushing and not for
  -- popping.
  pub threads_bounded :
      (raw : Array A) (ts : List (Turn A))
      → length ts + n < 2 ^ 63
      → let s = run n (start n raw) ts in
        (length s.claimed ≡ s.queue.enqueue_pos)
        × (s.queue.dequeue_pos ≤ s.queue.enqueue_pos)
        × (s.queue.enqueue_pos ≤ s.queue.dequeue_pos + n)
  threads_bounded raw ts few =
      let (phase, v, le) = run-Sound ts 0 (start n raw) (omega arith) (start-Sound raw) in
      (v.length, v.order, v.room)
