-- ===== src/Spsc/Fifo.antt =====
-- The ring, called from one thread at a time, against a bounded first-in first-out list.
use native.Mathlib.Nat.{mod-add-mod, mod-eq_of_lt}
use options_engine.Prelude.{
  ℕ, suc, ◌+◌, ◌%◌, ◌<◌, ◌≡◌, refl, ap, sym, ◌∙◌, ◌≢◌, Bool, true, false, Option, none, some, List,
  [], ◌∷◌, ◌++◌, arith, ◌==◌, if◌then◌else◌, length, length-append, ℕ_discrete,
}
use options_engine.Prelude.Arrays.{Array, update, update_self}
use options_engine.Spsc.{Ring, construct, try_push, try_pop}
use options_engine.Spsc.Window.{mod-ne, window, window-update, window-snoc}

-- The ring holds `xs`, oldest first. `pos` counts the items popped so far.
pub record Holds {A : Type 0} (cap : ℕ) (q : Ring A) (pos : ℕ) (xs : List A) : Type 0 where
  pub read : q.read_pos ≡ pos % cap
  pub write : q.write_pos ≡ (pos + length xs) % cap
  pub room : length xs < cap
  pub items : window cap q.buffer pos (length xs) ≡ xs

-- A ring of `cap` entries holds at most `cap - 1` items.
module _ {A : Type 0} where
  unfoldable pub fifo_push : ℕ → List A → A → List A × Bool
  fifo_push cap xs a = if suc (length xs) == cap then (xs, false) else (xs ++ a ∷ [], true)

  unfoldable pub fifo_pop : List A → List A × Option A
  fifo_pop [] = ([], none)
  fifo_pop (x ∷ xs) = (xs, some x)

-- The write position's successor meets the read position exactly when the ring is full.
pub next-full : (cap pos n : ℕ) → suc n ≡ cap → ((pos + n) % cap + 1) % cap ≡ pos % cap
next-full cap pos n e =
    mod-add-mod (pos + n) cap 1 ∙ (let p : pos + n + 1 ≡ pos + cap = omega arith in rw p around)
  where
    around : (pos + cap) % cap ≡ pos % cap
    around = grind arith

pub next-room : (cap pos n : ℕ) → suc n < cap → ((pos + n) % cap + 1) % cap ≢ pos % cap
next-room cap pos n h e =
    mod-ne cap pos (pos + n + 1) (omega arith) (omega arith) (omega arith)
      (sym (sym (mod-add-mod (pos + n) cap 1) ∙ e))

module _ {A : Type 0} (cap : ℕ) where
  construct-Holds : (raw : Array A) → 0 < cap → Holds cap (construct raw) 0 []
  unfolding construct
  construct-Holds raw h = record {
    read = sym (mod-eq_of_lt h);
    write = sym (mod-eq_of_lt h);
    room = h;
    items = refl;
  }

  push-full :
      (q : Ring A) (pos : ℕ) (xs : List A) (a : A)
      → Holds cap q pos xs
      → suc (length xs) ≡ cap
      → try_push cap q a ≡ (q, false)
  unfolding try_push
  push-full q pos xs a v e =
      let p : (q.write_pos + 1) % cap ≡ q.read_pos =
        ap (λ w. (w + 1) % cap) v.write ∙ next-full cap pos (length xs) e ∙ sym v.read in
      let t : ((q.write_pos + 1) % cap == q.read_pos) ≡ true = ground arith in rw t

  push-Holds :
      (q : Ring A) (pos : ℕ) (xs : List A) (a : A)
      → Holds cap q pos xs
      → suc (length xs) < cap
      → ((try_push cap q a).1 ≡ true) × Holds cap (try_push cap q a).0 pos (xs ++ a ∷ [])
  unfolding try_push
  push-Holds q pos xs a v h =
      let ne : (q.write_pos + 1) % cap ≢ q.read_pos =
        λ e. next-room cap pos (length xs) h (sym (ap (λ w. (w + 1) % cap) v.write) ∙ e ∙ v.read) in
      let t : ((q.write_pos + 1) % cap == q.read_pos) ≡ false = ground arith in
      let len : length (xs ++ a ∷ []) ≡ suc (length xs) =
        omega (arith, length-append xs (a ∷ [])) in
      rw t (
        refl,
        record {
          read = v.read;
          write =
              ap (λ w. (w + 1) % cap) v.write
              ∙ mod-add-mod (pos + length xs) cap 1
              ∙ ap (λ n. n % cap) (omega (arith, len));
          room = omega (arith, len);
          items = rw (
            len,
            window-snoc cap (update q.buffer q.write_pos a) pos (length xs),
            v.write,
            window-update cap q.buffer pos (length xs) (pos + length xs) a (omega arith)
                (omega arith) (omega arith),
            v.items,
            update_self q.buffer ((pos + length xs) % cap) a,
          );
        },
      )

  pop-empty : (q : Ring A) (pos : ℕ) → Holds cap q pos [] → try_pop cap q ≡ (q, none)
  unfolding try_pop
  pop-empty q pos v =
      let z : pos + 0 ≡ pos = omega arith in
      let p : q.read_pos ≡ q.write_pos = v.read ∙ sym (v.write ∙ ap (λ n. n % cap) z) in
      let t : (q.read_pos == q.write_pos) ≡ true = ground arith in rw t

  pop-Holds :
      (q : Ring A) (pos : ℕ) (x : A) (xs : List A)
      → Holds cap q pos (x ∷ xs)
      → ((try_pop cap q).1 ≡ some x) × Holds cap (try_pop cap q).0 (pos + 1) xs
  unfolding try_pop
  pop-Holds q pos x xs v =
      let ne : q.read_pos ≢ q.write_pos = λ e.
        mod-ne cap pos (pos + suc (length xs)) (omega (arith, v.room)) (omega arith)
          (omega (arith, v.room)) (sym v.read ∙ e ∙ v.write) in
      let t : (q.read_pos == q.write_pos) ≡ false = ground arith in
      rw t (
        ap some (ap q.buffer v.read ∙ head-eq v.items),
        record {
          read = ap (λ w. (w + 1) % cap) v.read ∙ mod-add-mod pos cap 1;
          write = v.write ∙ ap (λ n. n % cap) (omega arith);
          room = omega (arith, v.room);
          items = tail-eq v.items;
        },
      )
    where
      head-eq : {a b : A} {as' bs : List A} → (a ∷ as') ≡ (b ∷ bs) → a ≡ b
      head-eq e = cc

      tail-eq : {a b : A} {as' bs : List A} → (a ∷ as') ≡ (b ∷ bs) → as' ≡ bs
      tail-eq e = cc

-- A client's call, and what it sees of it.
pub data Call (A : Type 0) : Type 0 where
  push : A → Call A
  pop : Call A

pub data Reply (A : Type 0) : Type 0 where
  pushed : Bool → Reply A
  popped : Option A → Reply A

module _ {A : Type 0} (cap : ℕ) where
  unfoldable pub run_ring : Ring A → List (Call A) → List (Reply A)
  run_ring q [] = []
  run_ring q (push a ∷ cs) = let (q', done) = try_push cap q a in pushed done ∷ run_ring q' cs
  run_ring q (pop ∷ cs) = let (q', item) = try_pop cap q in popped item ∷ run_ring q' cs

  unfoldable pub run_fifo : List A → List (Call A) → List (Reply A)
  unfolding fifo_push fifo_pop
  run_fifo xs [] = []
  run_fifo xs (push a ∷ cs) = let (xs', done) = fifo_push cap xs a in pushed done ∷ run_fifo xs' cs
  run_fifo xs (pop ∷ cs) = let (xs', item) = fifo_pop xs in popped item ∷ run_fifo xs' cs

  run-Holds :
      (cs : List (Call A)) (q : Ring A) (pos : ℕ) (xs : List A)
      → Holds cap q pos xs
      → run_ring q cs ≡ run_fifo xs cs
  unfolding run_ring run_fifo
  run-Holds [] q pos xs v = refl
  run-Holds (push a ∷ cs) q pos xs v = elim (ℕ_discrete (suc (length xs)) cap) [
    | yes e ↦
        let t : (suc (length xs) == cap) ≡ true = ground arith in
        rw (push-full cap q pos xs a v e, t) (ap (◌∷◌ (pushed false)) (run-Holds cs q pos xs v))
    | no ne ↦
        let t : (suc (length xs) == cap) ≡ false = ground arith in
        let (done, v') = push-Holds cap q pos xs a v (omega (arith, v.room)) in
        rw (done, t)
          (ap (◌∷◌ (pushed true)) (run-Holds cs (try_push cap q a).0 pos (xs ++ a ∷ []) v'))
  ]
  run-Holds (pop ∷ cs) q pos [] v =
      rw (pop-empty cap q pos v) (ap (◌∷◌ (popped none)) (run-Holds cs q pos [] v))
  run-Holds (pop ∷ cs) q pos (x ∷ xs) v =
      let (item, v') = pop-Holds cap q pos x xs v in
      rw item (ap (◌∷◌ (popped (some x))) (run-Holds cs (try_pop cap q).0 (pos + 1) xs v'))

  -- No history of pushes and pops on a new ring of `cap` entries can be told from a first-in first-out
  -- list that holds at most `cap - 1` items.
  pub run_ring-run_fifo :
      (raw : Array A) (cs : List (Call A)) → 0 < cap → run_ring (construct raw) cs ≡ run_fifo [] cs
  run_ring-run_fifo raw cs h = run-Holds cs (construct raw) 0 [] (construct-Holds cap raw h)
