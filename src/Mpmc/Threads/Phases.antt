-- ===== src/Mpmc/Threads/Phases.antt =====
-- What every slot of the queue is doing, and what the threads know of it.
use options_engine.Prelude.{ℕ, ◌+◌, ◌%◌, ◌≤◌, ◌<◌, ◌≡◌, ◌≢◌, ap, some, List, [], ◌∷◌, get_elem?}
use options_engine.Prelude.Arrays.{Array}
use options_engine.Mpmc.{Queue, PushPc, PopPc}

-- A slot is free for a position, or held by the item of one, being written by a producer or read by a
-- consumer, or neither.
pub data Phase : Type 0 where
  free : ℕ → Phase
  writing : ℕ → ℕ → Phase
  full : ℕ → Phase
  reading : ℕ → ℕ → Phase

abbrev pub ticket : Phase → ℕ
ticket (Phase.free p) = p
ticket (Phase.writing p k) = p
ticket (Phase.full p) = p
ticket (Phase.reading p k) = p

abbrev kind : Phase → ℕ
kind (Phase.free p) = 0
kind (Phase.writing p k) = 1
kind (Phase.full p) = 2
kind (Phase.reading p k) = 3

-- The thread at work on the slot, if there is one.
abbrev holder : Phase → ℕ
holder (Phase.free p) = 0
holder (Phase.writing p k) = k
holder (Phase.full p) = 0
holder (Phase.reading p k) = k

pub kind-ne : {P Q : Phase} → kind P ≢ kind Q → P ≢ Q
kind-ne h e = h (ap kind e)

pub ticket-ne : {P Q : Phase} → ticket P ≢ ticket Q → P ≢ Q
ticket-ne h e = h (ap ticket e)

pub holder-ne : {P Q : Phase} → holder P ≢ holder Q → P ≢ Q
holder-ne h e = h (ap holder e)

module _ {A : Type 0} (n : ℕ) (q : Queue A) (claimed : List A) where
  -- What the slot `i` holds in its phase.
  abbrev pub IsCell : ℕ → Phase → Type 0
  IsCell i (Phase.free p) =
      (p % n ≡ i) × ((q.slots i).sequence ≡ p) × (q.enqueue_pos ≤ p) × (p < q.dequeue_pos + n)
  IsCell i (Phase.writing p k) =
      (p % n ≡ i)
      × ((q.slots i).sequence ≡ p)
      × (p < q.enqueue_pos)
      × (q.dequeue_pos ≤ p)
      × (q.enqueue_pos ≤ p + n)
  IsCell i (Phase.full p) =
      (p % n ≡ i)
      × ((q.slots i).sequence ≡ p + 1)
      × (p < q.enqueue_pos)
      × (q.dequeue_pos ≤ p)
      × (q.enqueue_pos ≤ p + n)
      × (get_elem? claimed p ≡ some (q.slots i).item)
  IsCell i (Phase.reading p k) =
      (p % n ≡ i)
      × ((q.slots i).sequence ≡ p + 1)
      × (p < q.enqueue_pos)
      × (p < q.dequeue_pos)
      × (q.enqueue_pos ≤ p + n)
      × (get_elem? claimed p ≡ some (q.slots i).item)

  module _ (phase : Array Phase) where
    -- What the producer `k` relies on.
    abbrev pub PushKnows : ℕ → PushPc A → Type 0
    PushKnows k (PushPc.claim a pos) =
        (pos ≤ q.enqueue_pos) × (q.enqueue_pos ≤ pos → phase (pos % n) ≡ Phase.free pos)
    PushKnows k (PushPc.write a pos) =
        (phase (pos % n) ≡ Phase.writing pos k) × (get_elem? claimed pos ≡ some a)
    PushKnows k (PushPc.publish pos) =
        (phase (pos % n) ≡ Phase.writing pos k)
        × (get_elem? claimed pos ≡ some (q.slots (pos % n)).item)
    PushKnows k (PushPc.start a) = Unit {0}
    PushKnows k (PushPc.check a pos) = pos ≤ q.enqueue_pos
    PushKnows k PushPc.pushed = Unit {0}
    PushKnows k PushPc.full = Unit {0}

    -- What the consumer `k` relies on.
    abbrev pub PopKnows : ℕ → PopPc A → Type 0
    PopKnows k (PopPc.claim pos) =
        (pos ≤ q.dequeue_pos) × (q.dequeue_pos ≤ pos → phase (pos % n) ≡ Phase.full pos)
    PopKnows k (PopPc.read pos) = phase (pos % n) ≡ Phase.reading pos k
    PopKnows k (PopPc.release pos a) =
        (phase (pos % n) ≡ Phase.reading pos k) × (get_elem? claimed pos ≡ some a)
    PopKnows k PopPc.start = Unit {0}
    PopKnows k (PopPc.check pos) = pos ≤ q.dequeue_pos
    PopKnows k (PopPc.popped a) = Unit {0}
    PopKnows k PopPc.empty = Unit {0}

    -- No position is delivered twice, each one's item is the one claimed at it, and its slot has gone on.
    abbrev pub IsDelivery : List (ℕ × A) → Type 0
    IsDelivery [] = Unit {0}
    IsDelivery ((p, a) ∷ ys) =
        (get_elem? claimed p ≡ some a) × (p < ticket (phase (p % n))) × IsDelivery ys

abbrev pub Fresh : {A : Type 0} → ℕ → List (ℕ × A) → Type 0
Fresh p [] = Unit {0}
Fresh p ((r, a) ∷ ys) = (p ≢ r) × Fresh p ys

-- No position twice.
abbrev pub NoneTwice : {A : Type 0} → List (ℕ × A) → Type 0
NoneTwice [] = Unit {0}
NoneTwice ((p, a) ∷ ys) = Fresh p ys × NoneTwice ys
