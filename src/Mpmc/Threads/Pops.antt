-- ===== src/Mpmc/Threads/Pops.antt =====
-- Each access of `try_pop` keeps the invariant.
use mathlib.Core.Path.{subst}
use options_engine.Prelude.{
  ℕ, ◌+◌, ◌%◌, ◌≤◌, ◌<◌, ◌≡◌, refl, ap, sym, ◌∙◌, inl, inr, Bool, true, not, ◌&&◌, List, [], ◌∷◌,
  arith, ℕ_discrete, if◌then◌else◌, ◌==◌, ltb, Bool-cases,
}
use native.Mathlib.Nat.{mod-lt, add-mod_right}
use options_engine.Prelude.Arrays.{Array, update, update_self, update_ne}
use options_engine.Spsc.Window.{mod-ne}
use options_engine.Mpmc.{Queue, PopPc, put_slot, slot_at}
use options_engine.Mpmc.Threads.Exact.{exact_pop}
use options_engine.Mpmc.Threads.{System, note_release}
use options_engine.Mpmc.Threads.Phases.{
  Phase, ticket, IsCell, PopKnows, IsDelivery, Fresh, kind-ne, ticket-ne, holder-ne,
}
use options_engine.Mpmc.Threads.Frame.{IsChange, IsDelivery-keep}
use options_engine.Mpmc.Threads.Sound.{IsSound, IsSound-pop, IsSound-pop_local}

-- A slot whose sequence is one past the position, when no consumer has taken it, holds its item.
slot-full :
    {A : Type 0} (n : ℕ) (q : Queue A) (xs : List A) (pos : ℕ) (P : Phase)
    → 1 < n
    → IsCell n q xs (pos % n) P
    → (q.slots (pos % n)).sequence ≡ pos + 1
    → q.dequeue_pos ≤ pos
    → P ≡ Phase.full pos
slot-full n q xs pos (Phase.free p) big (m, s, e, d) h le =
    absurd (mod-ne n pos p (omega arith) (omega (arith, s, h)) (omega (arith, s, h)) (sym m))
slot-full n q xs pos (Phase.writing p k) big (m, s, e, d, r) h le =
    absurd (mod-ne n pos p (omega arith) (omega (arith, s, h)) (omega (arith, s, h)) (sym m))
slot-full n q xs pos (Phase.full p) big (m, s, e, d, r, t) h le =
    ap Phase.full (omega (arith, s, h))
slot-full n q xs pos (Phase.reading p k) big (m, s, e, d, r, t) h le = absurd (omega (arith, s, h))

-- A position that is not past is not among those delivered.
delivery-Fresh :
    {A : Type 0} (n : ℕ) (q : Queue A) (xs : List A) (phase : Array Phase) (p : ℕ)
    (ys : List (ℕ × A))
    → ticket (phase (p % n)) ≡ p
    → IsDelivery n q xs phase ys
    → Fresh p ys
delivery-Fresh n q xs phase p [] h v = tt
delivery-Fresh n q xs phase p ((r, a) ∷ ys) h (item, past, v) = (
  λ e. absurd (not_past (subst (λ x. x < ticket (phase (x % n))) (sym e) past)),
  delivery-Fresh n q xs phase p ys h v,
)
  where
    not_past : p < ticket (phase (p % n)) → ⊥
    not_past l = omega (arith, h)

module _ {A : Type 0} (n : ℕ) (big : 1 < n) (s : System A) (phase : Array Phase)
    (v : IsSound n s phase) (k : ℕ) where
  abbrev Keeps : Queue A → PopPc A → List (ℕ × A) → Type 0
  Keeps q' pc ys =
      (phase' : Array Phase) × IsSound n
        (record s { queue = q'; consumers = update s.consumers k pc; delivered = ys }) phase'

  cell : (pos : ℕ) → IsCell n s.queue s.claimed (pos % n) (phase (pos % n))
  cell pos = v.cells (pos % n) (mod-lt pos (omega arith))

  stays : (pc : PopPc A) → PopKnows n s.queue s.claimed phase k pc → Keeps s.queue pc s.delivered
  stays pc own = (phase, IsSound-pop_local n s phase k pc own v)

  check-Keeps :
      (pos : ℕ)
      → pos ≤ s.queue.dequeue_pos
      → Keeps s.queue
          (if (slot_at n s.queue pos).sequence == pos + 1
            then PopPc.claim pos
            else if ltb (slot_at n s.queue pos).sequence (pos + 1)
            then PopPc.empty
            else PopPc.start)
          s.delivered
  check-Keeps pos old = elim (Bool-cases ((slot_at n s.queue pos).sequence == pos + 1)) [
    | inl t ↦ rw t (
        stays (PopPc.claim pos) (
          old,
          λ le.
              slot-full n s.queue s.claimed pos (phase (pos % n)) big (cell pos)
                (same _ (pos + 1) t) le,
        ))
    | inr t ↦ elim (Bool-cases (ltb (slot_at n s.queue pos).sequence (pos + 1))) [
      | inl u ↦ rw (t, u) (stays PopPc.empty tt)
      | inr u ↦ rw (t, u) (stays PopPc.start tt)
    ]
  ]
    where
      same : (x y : ℕ) → (x == y) ≡ true → x ≡ y
      same x y e = ground arith

  claim-Keeps :
      (pos : ℕ)
      → s.queue.dequeue_pos ≡ pos
      → phase (pos % n) ≡ Phase.full pos
      → Keeps (record (s.queue) { dequeue_pos = pos + 1 }) (PopPc.read pos) s.delivered
  claim-Keeps pos at h =
      let q' : Queue A = record (s.queue) { dequeue_pos = pos + 1 } in
      let (m, sq, e, d, r, t) : IsCell n s.queue s.claimed (pos % n) (Phase.full pos) =
        subst (IsCell n s.queue s.claimed (pos % n)) h (cell pos) in
      let ch : IsChange s.queue q' s.claimed s.claimed phase (pos % n) (Phase.full pos) = record {
        was = h;
        slots = λ i ne. refl;
        extends = λ p x g. g;
        push = omega arith;
        pop = omega arith;
      } in
      (
        update phase (pos % n) (Phase.reading pos k),
        IsSound-pop n s phase k (PopPc.read pos) q' (pos % n) (Phase.full pos) (Phase.reading pos k)
            s.delivered
            (record {
              change = ch;
              cell = (m, sq, e, omega arith, r, t);
              en = λ i p ne mp le. le;
              de = λ i p ne mp le. elim (ℕ_discrete p pos) [
                | yes z ↦ absurd (ne (sym mp ∙ ap (λ x. x % n) z))
                | no z ↦ omega arith
              ];
              later = omega arith;
              not_free = λ x le. kind-ne (omega arith);
              not_full = λ x le. ticket-ne (omega arith);
              length = v.length;
              order = omega arith;
              room = omega (arith, v.room);
            })
            (λ j x. kind-ne (omega arith)) (λ j x ne. kind-ne (omega arith))
            (update_self phase (pos % n) (Phase.reading pos k))
            (IsDelivery-keep n (Phase.reading pos k) ch s.delivered (omega arith) v.delivered)
            v.once v,
      )

  read-Keeps :
      (pos : ℕ)
      → PopKnows n s.queue s.claimed phase k (PopPc.read pos)
      → Keeps s.queue (PopPc.release pos (slot_at n s.queue pos).item) s.delivered
  read-Keeps pos h =
      let (m, sq, e, d, r, t) : IsCell n s.queue s.claimed (pos % n) (Phase.reading pos k) =
        subst (IsCell n s.queue s.claimed (pos % n)) h (cell pos) in
      stays (PopPc.release pos (slot_at n s.queue pos).item) (h, t)

  release-Keeps :
      (pos : ℕ) (a : A)
      → PopKnows n s.queue s.claimed phase k (PopPc.release pos a)
      → Keeps
          (put_slot n s.queue pos (record (slot_at n s.queue pos) { sequence = pos + n }))
          (PopPc.popped a)
          ((pos, a) ∷ s.delivered)
  release-Keeps pos a (h, item) =
      let (m, sq, e, d, r, t) : IsCell n s.queue s.claimed (pos % n) (Phase.reading pos k) =
        subst (IsCell n s.queue s.claimed (pos % n)) h (cell pos) in
      let stored = record (slot_at n s.queue pos) { sequence = pos + n } in
      let q' = put_slot n s.queue pos stored in
      let here = update_self s.queue.slots (pos % n) stored in
      let ch : IsChange s.queue q' s.claimed s.claimed phase (pos % n) (Phase.reading pos k) =
        record {
          was = h;
          slots = λ i ne. update_ne s.queue.slots (pos % n) i stored (λ z. ne (sym z));
          extends = λ p x g. g;
          push = omega arith;
          pop = omega arith;
        } in
      let now : ticket (update phase (pos % n) (Phase.free (pos + n)) (pos % n)) ≡ pos + n =
        ap ticket (update_self phase (pos % n) (Phase.free (pos + n))) in
      (
        update phase (pos % n) (Phase.free (pos + n)),
        IsSound-pop n s phase k (PopPc.popped a) q' (pos % n) (Phase.reading pos k)
            (Phase.free (pos + n)) ((pos, a) ∷ s.delivered)
            (record {
              change = ch;
              cell = (add-mod_right pos n, ap (λ x. x.sequence) here, r, omega arith);
              en = λ i p ne mp x. x;
              de = λ i p ne mp x. x;
              later = omega arith;
              not_free = λ x y. kind-ne (omega arith);
              not_full = λ x y. kind-ne (omega arith);
              length = v.length;
              order = v.order;
              room = v.room;
            })
            (λ j x. kind-ne (omega arith)) (λ j x ne. holder-ne (λ z. ne (sym z))) tt
            (
              item,
              omega (arith, now),
              IsDelivery-keep n (Phase.free (pos + n)) ch s.delivered (omega arith) v.delivered,
            )
            (
              delivery-Fresh n s.queue s.claimed phase pos s.delivered (ap ticket h) v.delivered,
              v.once,
            )
            v,
      )

  -- Each access of a call of `try_pop`.
  pub exact_pop-Keeps :
      (weak : Bool) (pc : PopPc A)
      → PopKnows n s.queue s.claimed phase k pc
      → let (q', pc') = exact_pop n weak s.queue pc in Keeps q' pc' (note_release pc s.delivered)
  unfolding exact_pop note_release
  exact_pop-Keeps weak PopPc.start own = stays (PopPc.check s.queue.dequeue_pos) (omega arith)
  exact_pop-Keeps weak (PopPc.check pos) own = check-Keeps pos own
  exact_pop-Keeps weak (PopPc.claim pos) own =
      elim (Bool-cases (s.queue.dequeue_pos == pos && not weak)) [
        | inl t ↦
            let e : s.queue.dequeue_pos ≡ pos = same s.queue.dequeue_pos pos weak t in
            rw t (claim-Keeps pos e (own.1 (omega (arith, e))))
        | inr t ↦ rw t (stays (PopPc.check s.queue.dequeue_pos) (omega arith))
      ]
    where
      same : (x y : ℕ) (w : Bool) → (x == y && not w) ≡ true → x ≡ y
      same x y w e = ground arith
  exact_pop-Keeps weak (PopPc.read pos) own = read-Keeps pos own
  exact_pop-Keeps weak (PopPc.release pos a) own = release-Keeps pos a own
  exact_pop-Keeps weak (PopPc.popped a) own = stays (PopPc.popped a) tt
  exact_pop-Keeps weak PopPc.empty own = stays PopPc.empty tt
