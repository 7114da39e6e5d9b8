-- ===== src/Mpmc/Threads/Exact.antt =====
-- The steps on unbounded positions, and that the code's steps are these while the positions are small: no
-- sum wraps, and the sign of the difference tells how the two compare.
use options_engine.Prelude.{
  ℕ, ◌+◌, ◌-◌, ◌^◌, ◌<◌, ◌≡◌, refl, ap, ◌∙◌, Bool, not, ◌&&◌, arith, ltb, ◌==◌, if◌then◌else◌,
}
use options_engine.Prelude.Int.{ℤ, ◌-ℤ◌, eqb_ℤ, ltb_ℤ}
use options_engine.Prelude.Words.{add64, add64_exact}
use options_engine.Mpmc.{Queue, PushPc, PopPc, signed64, slot_at, put_slot, push_step, pop_step}

module _ {A : Type 0} (capacity : ℕ) where
  unfoldable pub exact_push : Bool → Queue A → PushPc A → Queue A × PushPc A
  exact_push weak q (PushPc.start a) = (q, PushPc.check a q.enqueue_pos)
  exact_push weak q (PushPc.check a pos) =
      let seq = (slot_at capacity q pos).sequence in
      (
        q,
        if seq == pos
            then PushPc.claim a pos
            else if ltb seq pos
            then PushPc.full
            else PushPc.start a,
      )
  exact_push weak q (PushPc.claim a pos) =
      if q.enqueue_pos == pos && not weak
      then (record q { enqueue_pos = pos + 1 }, PushPc.write a pos)
      else (q, PushPc.check a q.enqueue_pos)
  exact_push weak q (PushPc.write a pos) =
      (put_slot capacity q pos (record (slot_at capacity q pos) { item = a }), PushPc.publish pos)
  exact_push weak q (PushPc.publish pos) = (
    put_slot capacity q pos (record (slot_at capacity q pos) { sequence = pos + 1 }),
    PushPc.pushed,
  )
  exact_push weak q PushPc.pushed = (q, PushPc.pushed)
  exact_push weak q PushPc.full = (q, PushPc.full)

  unfoldable pub exact_pop : Bool → Queue A → PopPc A → Queue A × PopPc A
  exact_pop weak q PopPc.start = (q, PopPc.check q.dequeue_pos)
  exact_pop weak q (PopPc.check pos) =
      let seq = (slot_at capacity q pos).sequence in
      (
        q,
        if seq == pos + 1
            then PopPc.claim pos
            else if ltb seq (pos + 1)
            then PopPc.empty
            else PopPc.start,
      )
  exact_pop weak q (PopPc.claim pos) =
      if q.dequeue_pos == pos && not weak
      then (record q { dequeue_pos = pos + 1 }, PopPc.read pos)
      else (q, PopPc.check q.dequeue_pos)
  exact_pop weak q (PopPc.read pos) = (q, PopPc.release pos (slot_at capacity q pos).item)
  exact_pop weak q (PopPc.release pos a) = (
    put_slot capacity q pos (record (slot_at capacity q pos) { sequence = pos + capacity }),
    PopPc.popped a,
  )
  exact_pop weak q (PopPc.popped a) = (q, PopPc.popped a)
  exact_pop weak q PopPc.empty = (q, PopPc.empty)

diff_zero :
    (a b : ℕ) → a < 2 ^ 63 → b < 2 ^ 63 → eqb_ℤ (signed64 a -ℤ signed64 b) (ℤ.pos 0) ≡ (a == b)
unfolding ◌-ℤ◌
diff_zero a b ha hb = ground arith

diff_negative :
    (a b : ℕ) → a < 2 ^ 63 → b < 2 ^ 63 → ltb_ℤ (signed64 a -ℤ signed64 b) (ℤ.pos 0) ≡ ltb a b
unfolding ◌-ℤ◌
diff_negative a b ha hb = ground arith

-- What a thread holds: its position, with the sequence of that slot where it looks at it.
module _ {A : Type 0} (n : ℕ) (q : Queue A) where
  abbrev pub SmallPush : PushPc A → Type 0
  SmallPush (PushPc.check a pos) = (pos + n < 2 ^ 63) × ((slot_at n q pos).sequence < 2 ^ 63)
  SmallPush (PushPc.claim a pos) = pos + n < 2 ^ 63
  SmallPush (PushPc.publish pos) = pos + n < 2 ^ 63
  SmallPush (PushPc.start a) = Unit {0}
  SmallPush (PushPc.write a pos) = Unit {0}
  SmallPush PushPc.pushed = Unit {0}
  SmallPush PushPc.full = Unit {0}

  abbrev pub SmallPop : PopPc A → Type 0
  SmallPop (PopPc.check pos) = (pos + n < 2 ^ 63) × ((slot_at n q pos).sequence < 2 ^ 63)
  SmallPop (PopPc.claim pos) = pos + n < 2 ^ 63
  SmallPop (PopPc.release pos a) = pos + n < 2 ^ 63
  SmallPop PopPc.start = Unit {0}
  SmallPop (PopPc.read pos) = Unit {0}
  SmallPop (PopPc.popped a) = Unit {0}
  SmallPop PopPc.empty = Unit {0}

  module _ (big : 1 < n) (weak : Bool) where
    pub push_step-exact :
        (pc : PushPc A) → SmallPush pc → push_step n weak q pc ≡ exact_push n weak q pc
    unfolding push_step exact_push
    push_step-exact (PushPc.start a) h = refl
    push_step-exact (PushPc.check a pos) (h, k) =
        let seq = (slot_at n q pos).sequence in
        rw (diff_zero seq pos k (omega arith), diff_negative seq pos k (omega arith))
    push_step-exact (PushPc.claim a pos) h = rw (add64_exact pos 1 (omega arith))
    push_step-exact (PushPc.write a pos) h = refl
    push_step-exact (PushPc.publish pos) h = rw (add64_exact pos 1 (omega arith))
    push_step-exact PushPc.pushed h = refl
    push_step-exact PushPc.full h = refl

    pub pop_step-exact : (pc : PopPc A) → SmallPop pc → pop_step n weak q pc ≡ exact_pop n weak q pc
    unfolding pop_step exact_pop
    pop_step-exact PopPc.start h = refl
    pop_step-exact (PopPc.check pos) (h, k) =
        let seq = (slot_at n q pos).sequence in
        rw (
          add64_exact pos 1 (omega arith),
          diff_zero seq (pos + 1) k (omega arith),
          diff_negative seq (pos + 1) k (omega arith),
        )
    pop_step-exact (PopPc.claim pos) h = rw (add64_exact pos 1 (omega arith))
    pop_step-exact (PopPc.read pos) h = refl
    pop_step-exact (PopPc.release pos a) h =
        let e : add64 (add64 pos (n - 1)) 1 ≡ pos + n =
          ap (λ x. add64 x 1) (add64_exact pos (n - 1) (omega arith))
          ∙ add64_exact (pos + (n - 1)) 1 (omega arith)
          ∙ omega arith in
        rw e
    pop_step-exact (PopPc.popped a) h = refl
    pop_step-exact PopPc.empty h = refl
