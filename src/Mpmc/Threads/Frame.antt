-- ===== src/Mpmc/Threads/Frame.antt =====
-- A step that changes one slot leaves alone what holds of the other slots and of the other threads.
use mathlib.Core.Path.{subst}
use native.Mathlib.Nat.{add-mod_right}
use options_engine.Prelude.{
  ℕ, ◌+◌, ◌%◌, ◌≤◌, ◌≡◌, ◌≢◌, ap, sym, ◌∙◌, some, List, [], ◌∷◌, arith, get_elem?, ℕ_discrete,
}
use options_engine.Prelude.Arrays.{Array, update, update_self, update_ne}
use options_engine.Mpmc.{Queue, PushPc, PopPc}
use options_engine.Mpmc.Threads.Phases.{Phase, ticket, IsCell, PushKnows, PopKnows, IsDelivery}

-- The slot `c`, which was in phase `old`, and the counters and the claims change.
pub record IsChange {A : Type 0} (q q' : Queue A) (xs xs' : List A) (phase : Array Phase) (c : ℕ)
    (old : Phase) : Type 0 where
  pub was : phase c ≡ old
  pub slots : (i : ℕ) → i ≢ c → q'.slots i ≡ q.slots i
  pub extends : (p : ℕ) (a : A) → get_elem? xs p ≡ some a → get_elem? xs' p ≡ some a
  pub push : q.enqueue_pos ≤ q'.enqueue_pos
  pub pop : q.dequeue_pos ≤ q'.dequeue_pos

module _ {A : Type 0} (n : ℕ) {q q' : Queue A} {xs xs' : List A} {phase : Array Phase} {c : ℕ}
    {old : Phase} (new : Phase) (ch : IsChange q q' xs xs' phase c old) where
  elsewhere : {i : ℕ} {P : Phase} → phase i ≡ P → old ≢ P → i ≢ c
  elsewhere h ne e = ne (sym ch.was ∙ ap phase (sym e) ∙ h)

  keep : {i : ℕ} {P : Phase} → phase i ≡ P → old ≢ P → update phase c new i ≡ P
  keep {i} h ne = update_ne phase c i new (λ e. elsewhere h ne (sym e)) ∙ h

  pub PushKnows-keep :
      (k : ℕ) (pc : PushPc A)
      → ((pos : ℕ) → q'.enqueue_pos ≤ pos → old ≢ Phase.free pos)
      → ((pos : ℕ) → old ≢ Phase.writing pos k)
      → PushKnows n q xs phase k pc
      → PushKnows n q' xs' (update phase c new) k pc
  PushKnows-keep k (PushPc.claim a pos) fr wr v =
      (omega (arith, ch.push, v.0), λ le. keep (v.1 (omega (arith, ch.push, le))) (fr pos le))
  PushKnows-keep k (PushPc.write a pos) fr wr v = (keep v.0 (wr pos), ch.extends pos a v.1)
  PushKnows-keep k (PushPc.publish pos) fr wr v =
      (keep v.0 (wr pos), rw (ch.slots (pos % n) (elsewhere v.0 (wr pos))) (ch.extends pos _ v.1))
  PushKnows-keep k (PushPc.start a) fr wr v = tt
  PushKnows-keep k (PushPc.check a pos) fr wr v = omega (arith, ch.push, v)
  PushKnows-keep k PushPc.pushed fr wr v = tt
  PushKnows-keep k PushPc.full fr wr v = tt

  pub PopKnows-keep :
      (k : ℕ) (pc : PopPc A)
      → ((pos : ℕ) → q'.dequeue_pos ≤ pos → old ≢ Phase.full pos)
      → ((pos : ℕ) → old ≢ Phase.reading pos k)
      → PopKnows n q xs phase k pc
      → PopKnows n q' xs' (update phase c new) k pc
  PopKnows-keep k (PopPc.claim pos) fu re v =
      (omega (arith, ch.pop, v.0), λ le. keep (v.1 (omega (arith, ch.pop, le))) (fu pos le))
  PopKnows-keep k (PopPc.read pos) fu re v = keep v (re pos)
  PopKnows-keep k (PopPc.release pos a) fu re v = (keep v.0 (re pos), ch.extends pos a v.1)
  PopKnows-keep k PopPc.start fu re v = tt
  PopKnows-keep k (PopPc.check pos) fu re v = omega (arith, ch.pop, v)
  PopKnows-keep k (PopPc.popped a) fu re v = tt
  PopKnows-keep k PopPc.empty fu re v = tt

  pub IsDelivery-keep :
      (ys : List (ℕ × A))
      → ticket old ≤ ticket new
      → IsDelivery n q xs phase ys
      → IsDelivery n q' xs' (update phase c new) ys
  IsDelivery-keep [] le v = tt
  IsDelivery-keep ((p, a) ∷ ys) le (item, past, v) = (
    ch.extends p a item,
    elim (ℕ_discrete c (p % n)) [
      | yes e ↦
          let there : ticket (phase (p % n)) ≡ ticket old = ap ticket (ap phase (sym e) ∙ ch.was) in
          let now : ticket (update phase c new (p % n)) ≡ ticket new =
            ap ticket (subst (λ i. update phase c new i ≡ new) e (update_self phase c new)) in
          omega (arith, there, now, le, past)
      | no e ↦ rw (update_ne phase c (p % n) new e) past
    ],
    IsDelivery-keep ys le v,
  )

  -- Another slot, when no position that it may hold is passed by a counter.
  pub IsCell-keep :
      (i : ℕ) (P : Phase)
      → i ≢ c
      → ((p : ℕ) → p % n ≡ i → q.enqueue_pos ≤ p → q'.enqueue_pos ≤ p)
      → ((p : ℕ) → p % n ≡ i → q.dequeue_pos ≤ p → q'.dequeue_pos ≤ p)
      → IsCell n q xs i P
      → IsCell n q' xs' i P
  IsCell-keep i (Phase.free p) ne en de (m, s, e, d) =
      (m, ap (λ x. x.sequence) (ch.slots i ne) ∙ s, en p m e, omega (arith, ch.pop))
  IsCell-keep i (Phase.writing p k) ne en de (m, s, e, d, r) = (
    m,
    ap (λ x. x.sequence) (ch.slots i ne) ∙ s,
    omega (arith, ch.push),
    de p m d,
    en (p + n) (add-mod_right p n ∙ m) r,
  )
  IsCell-keep i (Phase.full p) ne en de (m, s, e, d, r, t) = (
    m,
    ap (λ x. x.sequence) (ch.slots i ne) ∙ s,
    omega (arith, ch.push),
    de p m d,
    en (p + n) (add-mod_right p n ∙ m) r,
    ch.extends p _ t ∙ ap (λ x. some x.item) (sym (ch.slots i ne)),
  )
  IsCell-keep i (Phase.reading p k) ne en de (m, s, e, d, r, t) = (
    m,
    ap (λ x. x.sequence) (ch.slots i ne) ∙ s,
    omega (arith, ch.push),
    omega (arith, ch.pop),
    en (p + n) (add-mod_right p n ∙ m) r,
    ch.extends p _ t ∙ ap (λ x. some x.item) (sym (ch.slots i ne)),
  )
