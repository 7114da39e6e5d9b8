-- ===== src/Mpmc/Threads/Pushes.antt =====
-- Each access of `try_push` keeps the invariant.
use mathlib.Core.Path.{subst}
use options_engine.Prelude.{
  ℕ, ◌+◌, ◌%◌, ◌≤◌, ◌<◌, ◌≡◌, refl, ap, sym, ◌∙◌, inl, inr, Bool, true, not, ◌&&◌, some, List, [],
  ◌∷◌, ◌++◌, arith, ℕ_discrete, if◌then◌else◌, ◌==◌, ltb, Bool-cases, get_elem?-snoc_old,
  get_elem?-snoc_new, length-append,
}
use native.Mathlib.Nat.{mod-lt}
use options_engine.Prelude.Arrays.{Array, update, update_self, update_ne}
use options_engine.Spsc.Window.{mod-ne}
use options_engine.Mpmc.{Slot, Queue, PushPc, put_slot, slot_at}
use options_engine.Mpmc.Threads.Exact.{exact_push}
use options_engine.Mpmc.Threads.{System, note_claim}
use options_engine.Mpmc.Threads.Phases.{
  Phase, ticket, IsCell, PushKnows, kind-ne, ticket-ne, holder-ne,
}
use options_engine.Mpmc.Threads.Sound.{IsSound, IsSound-push, IsSound-push_local}

-- A slot whose sequence is the position, when no producer has taken it, is free for it.
slot-free :
    {A : Type 0} (n : ℕ) (q : Queue A) (xs : List A) (pos : ℕ) (P : Phase)
    → 1 < n
    → IsCell n q xs (pos % n) P
    → (q.slots (pos % n)).sequence ≡ pos
    → q.enqueue_pos ≤ pos
    → P ≡ Phase.free pos
slot-free n q xs pos (Phase.free p) big (m, s, e, d) h le = ap Phase.free (sym s ∙ h)
slot-free n q xs pos (Phase.writing p k) big (m, s, e, d, r) h le = absurd (omega (arith, s, h))
slot-free n q xs pos (Phase.full p) big (m, s, e, d, r, t) h le =
    absurd (mod-ne n p pos (omega arith) (omega (arith, s, h)) (omega (arith, s, h)) m)
slot-free n q xs pos (Phase.reading p k) big (m, s, e, d, r, t) h le =
    absurd (mod-ne n p pos (omega arith) (omega (arith, s, h)) (omega (arith, s, h)) m)

module _ {A : Type 0} (n : ℕ) (big : 1 < n) (s : System A) (phase : Array Phase)
    (v : IsSound n s phase) (k : ℕ) where
  -- The access of a producer that takes `pc`, `q'` and `xs'` from it.
  abbrev Keeps : Queue A → PushPc A → List A → Type 0
  Keeps q' pc xs' =
      (phase' : Array Phase) × IsSound n
        (record s { queue = q'; producers = update s.producers k pc; claimed = xs' }) phase'

  cell : (pos : ℕ) → IsCell n s.queue s.claimed (pos % n) (phase (pos % n))
  cell pos = v.cells (pos % n) (mod-lt pos (omega arith))

  stays : (pc : PushPc A) → PushKnows n s.queue s.claimed phase k pc → Keeps s.queue pc s.claimed
  stays pc own = (phase, IsSound-push_local n s phase k pc own v)

  check-Keeps :
      (a : A) (pos : ℕ)
      → pos ≤ s.queue.enqueue_pos
      → Keeps s.queue
          (if (slot_at n s.queue pos).sequence == pos
            then PushPc.claim a pos
            else if ltb (slot_at n s.queue pos).sequence pos
            then PushPc.full
            else PushPc.start a)
          s.claimed
  check-Keeps a pos old = elim (Bool-cases ((slot_at n s.queue pos).sequence == pos)) [
    | inl t ↦ rw t (
        stays (PushPc.claim a pos) (
          old,
          λ le.
              slot-free n s.queue s.claimed pos (phase (pos % n)) big (cell pos) (same _ pos t) le,
        ))
    | inr t ↦ elim (Bool-cases (ltb (slot_at n s.queue pos).sequence pos)) [
      | inl u ↦ rw (t, u) (stays PushPc.full tt)
      | inr u ↦ rw (t, u) (stays (PushPc.start a) tt)
    ]
  ]
    where
      same : (x y : ℕ) → (x == y) ≡ true → x ≡ y
      same x y e = ground arith

  claim-Keeps :
      (a : A) (pos : ℕ)
      → s.queue.enqueue_pos ≡ pos
      → phase (pos % n) ≡ Phase.free pos
      → Keeps
          (record (s.queue) { enqueue_pos = pos + 1 })
          (PushPc.write a pos)
          (s.claimed ++ a ∷ [])
  claim-Keeps a pos at h =
      let (m, sq, e, d) : IsCell n s.queue s.claimed (pos % n) (Phase.free pos) =
        subst (IsCell n s.queue s.claimed (pos % n)) h (cell pos) in
      (
        update phase (pos % n) (Phase.writing pos k),
        IsSound-push n s phase k (PushPc.write a pos) (record (s.queue) { enqueue_pos = pos + 1 })
            (s.claimed ++ a ∷ []) (pos % n) (Phase.free pos) (Phase.writing pos k)
            (record {
              change = record {
                was = h;
                slots = λ i ne. refl;
                extends = λ p x g. get_elem?-snoc_old s.claimed a p x g;
                push = omega arith;
                pop = omega arith;
              };
              cell = (m, sq, omega arith, omega (arith, v.order), omega arith);
              en = λ i p ne mp le. elim (ℕ_discrete p pos) [
                | yes z ↦ absurd (ne (sym mp ∙ ap (λ x. x % n) z))
                | no z ↦ omega arith
              ];
              de = λ i p ne mp le. le;
              later = omega arith;
              not_free = λ x le. ticket-ne (omega arith);
              not_full = λ x le. kind-ne (omega arith);
              length = length-append s.claimed (a ∷ []) ∙ omega (arith, v.length);
              order = omega (arith, v.order);
              room = omega arith;
            })
            (λ j x ne. kind-ne (omega arith)) (λ j x. kind-ne (omega arith))
            (
              update_self phase (pos % n) (Phase.writing pos k),
              get_elem?-snoc_new s.claimed a pos (v.length ∙ at),
            )
            v,
      )

  -- A store into the slot that the producer holds.
  store-Keeps :
      (pos : ℕ) (r : Slot A) (new : Phase) (pc : PushPc A)
      → phase (pos % n) ≡ Phase.writing pos k
      → pos ≤ ticket new
      → IsCell n (put_slot n s.queue pos r) s.claimed (pos % n) new
      → PushKnows n (put_slot n s.queue pos r) s.claimed (update phase (pos % n) new) k pc
      → Keeps (put_slot n s.queue pos r) pc s.claimed
  store-Keeps pos r new pc h le here own = (
    update phase (pos % n) new,
    IsSound-push n s phase k pc (put_slot n s.queue pos r) s.claimed (pos % n) (Phase.writing pos k)
        new
        (record {
          change = record {
            was = h;
            slots = λ i ne. update_ne s.queue.slots (pos % n) i r (λ e. ne (sym e));
            extends = λ p x g. g;
            push = omega arith;
            pop = omega arith;
          };
          cell = here;
          en = λ i p ne mp x. x;
          de = λ i p ne mp x. x;
          later = le;
          not_free = λ x y. kind-ne (omega arith);
          not_full = λ x y. kind-ne (omega arith);
          length = v.length;
          order = v.order;
          room = v.room;
        })
        (λ j x ne. holder-ne (λ e. ne (sym e))) (λ j x. kind-ne (omega arith)) own v,
  )

  write-Keeps :
      (a : A) (pos : ℕ)
      → PushKnows n s.queue s.claimed phase k (PushPc.write a pos)
      → Keeps
          (put_slot n s.queue pos (record (slot_at n s.queue pos) { item = a }))
          (PushPc.publish pos)
          s.claimed
  write-Keeps a pos (h, item) =
      let (m, sq, e, d, r) : IsCell n s.queue s.claimed (pos % n) (Phase.writing pos k) =
        subst (IsCell n s.queue s.claimed (pos % n)) h (cell pos) in
      let stored = record (slot_at n s.queue pos) { item = a } in
      let here = update_self s.queue.slots (pos % n) stored in
      store-Keeps pos stored (Phase.writing pos k) (PushPc.publish pos) h (omega arith)
        (m, ap (λ x. x.sequence) here ∙ sq, e, d, r)
        (update_self phase (pos % n) (Phase.writing pos k), item ∙ ap (λ x. some x.item) (sym here))

  publish-Keeps :
      (pos : ℕ)
      → PushKnows n s.queue s.claimed phase k (PushPc.publish pos)
      → Keeps
          (put_slot n s.queue pos (record (slot_at n s.queue pos) { sequence = pos + 1 }))
          PushPc.pushed
          s.claimed
  publish-Keeps pos (h, item) =
      let (m, sq, e, d, r) : IsCell n s.queue s.claimed (pos % n) (Phase.writing pos k) =
        subst (IsCell n s.queue s.claimed (pos % n)) h (cell pos) in
      let stored = record (slot_at n s.queue pos) { sequence = pos + 1 } in
      let here = update_self s.queue.slots (pos % n) stored in
      store-Keeps pos stored (Phase.full pos) PushPc.pushed h (omega arith)
        (m, ap (λ x. x.sequence) here, e, d, r, item ∙ ap (λ x. some x.item) (sym here)) tt

  -- Each access of a call of `try_push`.
  pub exact_push-Keeps :
      (weak : Bool) (pc : PushPc A)
      → PushKnows n s.queue s.claimed phase k pc
      → let (q', pc') = exact_push n weak s.queue pc in
        Keeps q' pc' (note_claim weak s.queue pc s.claimed)
  unfolding exact_push note_claim
  exact_push-Keeps weak (PushPc.start a) own =
      stays (PushPc.check a s.queue.enqueue_pos) (omega arith)
  exact_push-Keeps weak (PushPc.check a pos) own = check-Keeps a pos own
  exact_push-Keeps weak (PushPc.claim a pos) own =
      elim (Bool-cases (s.queue.enqueue_pos == pos && not weak)) [
        | inl t ↦
            let e : s.queue.enqueue_pos ≡ pos = same s.queue.enqueue_pos pos weak t in
            rw t (claim-Keeps a pos e (own.1 (omega (arith, e))))
        | inr t ↦ rw t (stays (PushPc.check a s.queue.enqueue_pos) (omega arith))
      ]
    where
      same : (x y : ℕ) (w : Bool) → (x == y && not w) ≡ true → x ≡ y
      same x y w e = ground arith
  exact_push-Keeps weak (PushPc.write a pos) own = write-Keeps a pos own
  exact_push-Keeps weak (PushPc.publish pos) own = publish-Keeps pos own
  exact_push-Keeps weak PushPc.pushed own = stays PushPc.pushed tt
  exact_push-Keeps weak PushPc.full own = stays PushPc.full tt
