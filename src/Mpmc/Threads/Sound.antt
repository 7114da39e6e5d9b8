-- ===== src/Mpmc/Threads/Sound.antt =====
-- The invariant of the queue and its threads, and what a step of one thread must show to keep it.
use mathlib.Core.Path.{subst}
use options_engine.Prelude.{ℕ, ◌+◌, ◌%◌, ◌≤◌, ◌<◌, ◌≡◌, ◌≢◌, sym, List, length, ℕ_discrete}
use options_engine.Prelude.Arrays.{Array, update, update_self, update_ne}
use options_engine.Mpmc.{Queue, PushPc, PopPc}
use options_engine.Mpmc.Threads.{System}
use options_engine.Mpmc.Threads.Phases.{
  Phase, ticket, IsCell, PushKnows, PopKnows, IsDelivery, NoneTwice,
}
use options_engine.Mpmc.Threads.Frame.{
  IsChange, PushKnows-keep, PopKnows-keep, IsDelivery-keep, IsCell-keep,
}

-- Every slot is in its phase, every thread knows what it relies on, the positions taken are those
-- claimed, no more are held than the queue has slots, and the deliveries are of what was claimed.
pub record IsSound {A : Type 0} (n : ℕ) (s : System A) (phase : Array Phase) : Type 0 where
  pub length : length s.claimed ≡ s.queue.enqueue_pos
  pub order : s.queue.dequeue_pos ≤ s.queue.enqueue_pos
  pub room : s.queue.enqueue_pos ≤ s.queue.dequeue_pos + n
  pub cells : (i : ℕ) → i < n → IsCell n s.queue s.claimed i (phase i)
  pub producers : (k : ℕ) → PushKnows n s.queue s.claimed phase k (s.producers k)
  pub consumers : (k : ℕ) → PopKnows n s.queue s.claimed phase k (s.consumers k)
  pub delivered : IsDelivery n s.queue s.claimed phase s.delivered
  pub once : NoneTwice s.delivered

-- A step that takes the slot `c` from `old` to `new`, seen by everyone but the thread that makes it.
pub record IsStep {A : Type 0} (n : ℕ) (s : System A) (phase : Array Phase) (q' : Queue A)
    (xs' : List A) (c : ℕ) (old new : Phase) : Type 0 where
  pub change : IsChange s.queue q' s.claimed xs' phase c old
  pub cell : IsCell n q' xs' c new
  pub en : (i p : ℕ) → i ≢ c → p % n ≡ i → s.queue.enqueue_pos ≤ p → q'.enqueue_pos ≤ p
  pub de : (i p : ℕ) → i ≢ c → p % n ≡ i → s.queue.dequeue_pos ≤ p → q'.dequeue_pos ≤ p
  pub later : ticket old ≤ ticket new
  pub not_free : (pos : ℕ) → q'.enqueue_pos ≤ pos → old ≢ Phase.free pos
  pub not_full : (pos : ℕ) → q'.dequeue_pos ≤ pos → old ≢ Phase.full pos
  pub length : length xs' ≡ q'.enqueue_pos
  pub order : q'.dequeue_pos ≤ q'.enqueue_pos
  pub room : q'.enqueue_pos ≤ q'.dequeue_pos + n

-- What holds at the entry written and at the others holds after the write.
at_update :
    {B : Type 0} (P : ℕ → B → Type 0) (f : Array B) (k : ℕ) (v : B)
    → P k v
    → ((j : ℕ) → j ≢ k → P j (f j))
    → (j : ℕ) → P j (update f k v j)
at_update P f k v here there j = elim (ℕ_discrete k j) [
  | yes e ↦ subst (λ i. P i (update f k v i)) e (subst (P k) (sym (update_self f k v)) here)
  | no e ↦ subst (P j) (sym (update_ne f k j v e)) (there j (λ x. e (sym x)))
]

module _ {A : Type 0} (n : ℕ) (s : System A) (phase : Array Phase) where
  cells-keep :
      (q' : Queue A) (xs' : List A) (c : ℕ) (old new : Phase)
      → IsStep n s phase q' xs' c old new
      → IsSound n s phase
      → (i : ℕ) → i < n
      → IsCell n q' xs' i (update phase c new i)
  cells-keep q' xs' c old new st v =
      at_update (λ i P. i < n → IsCell n q' xs' i P) phase c new (λ small. st.cell)
        (λ i ne small.
          IsCell-keep n new st.change i (phase i) ne (λ p. st.en i p ne) (λ p. st.de i p ne)
            (v.cells i small))

  -- A producer's step.
  pub IsSound-push :
      (k : ℕ) (pc : PushPc A) (q' : Queue A) (xs' : List A) (c : ℕ) (old new : Phase)
      → IsStep n s phase q' xs' c old new
      → ((j pos : ℕ) → j ≢ k → old ≢ Phase.writing pos j)
      → ((j pos : ℕ) → old ≢ Phase.reading pos j)
      → PushKnows n q' xs' (update phase c new) k pc
      → IsSound n s phase
      → IsSound n
          (record s { queue = q'; producers = update s.producers k pc; claimed = xs' })
          (update phase c new)
  IsSound-push k pc q' xs' c old new st wr re own v = record {
    length = st.length;
    order = st.order;
    room = st.room;
    cells = cells-keep q' xs' c old new st v;
    producers = at_update (PushKnows n q' xs' (update phase c new)) s.producers k pc own (λ j ne.
        PushKnows-keep n new st.change j (s.producers j) st.not_free (λ pos. wr j pos ne)
          (v.producers j));
    consumers =
        λ j. PopKnows-keep n new st.change j (s.consumers j) st.not_full (re j) (v.consumers j);
    delivered = IsDelivery-keep n new st.change s.delivered st.later v.delivered;
    once = v.once;
  }

  -- A consumer's step, which may deliver `ys` on top of what was delivered.
  pub IsSound-pop :
      (k : ℕ) (pc : PopPc A) (q' : Queue A) (c : ℕ) (old new : Phase) (ys : List (ℕ × A))
      → IsStep n s phase q' s.claimed c old new
      → ((j pos : ℕ) → old ≢ Phase.writing pos j)
      → ((j pos : ℕ) → j ≢ k → old ≢ Phase.reading pos j)
      → PopKnows n q' s.claimed (update phase c new) k pc
      → IsDelivery n q' s.claimed (update phase c new) ys
      → NoneTwice ys
      → IsSound n s phase
      → IsSound n
          (record s { queue = q'; consumers = update s.consumers k pc; delivered = ys })
          (update phase c new)
  IsSound-pop k pc q' c old new ys st wr re own out once v = record {
    length = st.length;
    order = st.order;
    room = st.room;
    cells = cells-keep q' s.claimed c old new st v;
    producers =
        λ j. PushKnows-keep n new st.change j (s.producers j) st.not_free (wr j) (v.producers j);
    consumers =
        at_update (PopKnows n q' s.claimed (update phase c new)) s.consumers k pc own (λ j ne.
          PopKnows-keep n new st.change j (s.consumers j) st.not_full (λ pos. re j pos ne)
            (v.consumers j));
    delivered = out;
    once = once;
  }

  -- A step that changes only where a thread stands.
  pub IsSound-push_local :
      (k : ℕ) (pc : PushPc A)
      → PushKnows n s.queue s.claimed phase k pc
      → IsSound n s phase
      → IsSound n (record s { producers = update s.producers k pc }) phase
  IsSound-push_local k pc own v = record {
    length = v.length;
    order = v.order;
    room = v.room;
    cells = v.cells;
    producers =
        at_update (PushKnows n s.queue s.claimed phase) s.producers k pc own
          (λ j ne. v.producers j);
    consumers = v.consumers;
    delivered = v.delivered;
    once = v.once;
  }

  pub IsSound-pop_local :
      (k : ℕ) (pc : PopPc A)
      → PopKnows n s.queue s.claimed phase k pc
      → IsSound n s phase
      → IsSound n (record s { consumers = update s.consumers k pc }) phase
  IsSound-pop_local k pc own v = record {
    length = v.length;
    order = v.order;
    room = v.room;
    cells = v.cells;
    producers = v.producers;
    consumers =
        at_update (PopKnows n s.queue s.claimed phase) s.consumers k pc own (λ j ne. v.consumers j);
    delivered = v.delivered;
    once = v.once;
  }
