-- ===== src/OrderBook/Slots/FreeList.antt =====
-- The slot pool's free list: which slots it holds, and that no slot in use is handed out.
use mathlib.Core.Path.{subst}
use options_engine.Prelude.{
  ℕ, zero, suc, ◌+◌, ◌-◌, ◌≤◌, ◌<◌, ◌≡◌, refl, ap, sym, ◌∙◌, ◌≢◌, false, List, [], ◌∷◌, arith, ◌==◌,
  ℕ_discrete, length,
}
use options_engine.Prelude.Words.{add32, add32_exact, sub32_exact}
use options_engine.Prelude.Arrays.{Array, update, update_self, update_ne}
use options_engine.Types.{uint32_max}
use options_engine.OrderBook.Levels.{null_idx}
use options_engine.OrderBook.Slots.{Slots, chain_from, init, alloc, free_slot}

-- From `h` the array leads through `xs` to NULL_IDX.
abbrev pub Chain : Array ℕ → ℕ → List ℕ → Type 0
Chain f h [] = h ≡ null_idx
Chain f h (x ∷ xs) = (h ≡ x) × (x ≢ null_idx) × Chain f (f x) xs

abbrev pub Absent : ℕ → List ℕ → Type 0
Absent a [] = Unit {0}
Absent a (x ∷ xs) = (a ≢ x) × Absent a xs

abbrev pub Distinct : List ℕ → Type 0
Distinct [] = Unit {0}
Distinct (x ∷ xs) = Absent x xs × Distinct xs

abbrev pub Below : ℕ → List ℕ → Type 0
Below n [] = Unit {0}
Below n (x ∷ xs) = (x < n) × Below n xs

-- Of `capacity` slots exactly those of `free` are free, in the order in which they will be handed out.
pub record IsPool (p : Slots) (capacity : ℕ) (free : List ℕ) : Type 0 where
  pub chain : Chain p.free_nexts p.free_head free
  pub distinct : Distinct free
  pub below : Below capacity free
  pub used : p.used + length free ≡ capacity
  pub small : capacity < uint32_max

Chain-update :
    (f : Array ℕ) (h : ℕ) (xs : List ℕ) (i v : ℕ)
    → Absent i xs
    → Chain f h xs
    → Chain (update f i v) h xs
Chain-update f h [] i v out c = c
Chain-update f h (x ∷ xs) i v out c =
    (c.0, c.1, rw (update_ne f i x v out.0) (Chain-update f (f x) xs i v out.1 c.2))

-- The slots `i, i + 1, …`, `n` of them.
abbrev pub upto : ℕ → ℕ → List ℕ
upto i zero = []
upto i (suc n) = i ∷ upto (i + 1) n

chain_from-below : (i n : ℕ) (f : Array ℕ) (j : ℕ) → j < i → chain_from i n f j ≡ f j
unfolding chain_from
chain_from-below i zero f j h = refl
chain_from-below i (suc n) f j h =
    chain_from-below (i + 1) n (update f i (i + 1)) j (omega arith)
    ∙ update_ne f i j (i + 1) (omega arith)

chain_from-in : (i n : ℕ) (f : Array ℕ) (j : ℕ) → i ≤ j → j < i + n → chain_from i n f j ≡ j + 1
unfolding chain_from
chain_from-in i zero f j lo hi = absurd (omega arith)
chain_from-in i (suc n) f j lo hi = elim (ℕ_discrete i j) [
  | yes e ↦
      chain_from-below (i + 1) n (update f i (i + 1)) j (omega arith)
      ∙ rw (← e) (update_self f i (i + 1))
  | no e ↦ chain_from-in (i + 1) n (update f i (i + 1)) j (omega arith) (omega arith)
]

Chain-upto :
    (f : Array ℕ) (i n last : ℕ)
    → i + n ≡ last
    → last < null_idx
    → ((j : ℕ) → i ≤ j → j < last → f j ≡ j + 1)
    → f last ≡ null_idx
    → Chain f i (upto i (suc n))
Chain-upto f i zero last e small step stop =
    let q : i ≡ last = omega arith in (refl, omega arith, rw q stop)
Chain-upto f i (suc n) last e small step stop = (
  refl,
  omega arith,
  rw (step i (omega arith) (omega arith))
      (Chain-upto f (i + 1) n last (omega arith) small (λ j lo hi. step j (omega arith) hi) stop),
)

Absent-upto : (a i n : ℕ) → a < i → Absent a (upto i n)
Absent-upto a i zero h = tt
Absent-upto a i (suc n) h = (omega arith, Absent-upto a (i + 1) n (omega arith))

Distinct-upto : (i n : ℕ) → Distinct (upto i n)
Distinct-upto i zero = tt
Distinct-upto i (suc n) = (Absent-upto i (i + 1) n (omega arith), Distinct-upto (i + 1) n)

Below-upto : (c i n : ℕ) → i + n ≤ c → Below c (upto i n)
Below-upto c i zero h = tt
Below-upto c i (suc n) h = (omega arith, Below-upto c (i + 1) n (omega arith))

length-upto : (i n : ℕ) → length (upto i n) ≡ n
length-upto i zero = refl
length-upto i (suc n) = ap suc (length-upto (i + 1) n)

-- After `init` of at least one and fewer than 2 ^ 32 - 1 slots, every slot is free, in the order of
-- their numbers.
pub init-IsPool :
    (n : ℕ) (s : Slots) → suc n < uint32_max → IsPool (init (suc n) s) (suc n) (upto 0 (suc n))
unfolding init
init-IsPool n s small =
    let e : suc n - 1 ≡ n = omega arith in
    record {
      chain = subst Linked (sym e) (
          Chain-upto (update (chain_from 0 n s.free_nexts) n null_idx) 0 n n (omega arith)
            (omega arith)
            (λ j lo hi.
              update_ne (chain_from 0 n s.free_nexts) n j null_idx (omega arith)
              ∙ chain_from-in 0 n s.free_nexts j lo (omega arith))
            (update_self (chain_from 0 n s.free_nexts) n null_idx));
      distinct = Distinct-upto 0 (suc n);
      below = Below-upto (suc n) 0 (suc n) (omega arith);
      used = omega (arith, length-upto 0 (suc n));
      small = small;
    }
  where
    Linked : ℕ → Type 0
    Linked k = Chain (update (chain_from 0 k s.free_nexts) k null_idx) 0 (upto 0 (suc n))

alloc-null : (p : Slots) → p.free_head ≡ null_idx → alloc p ≡ (p, null_idx)
unfolding alloc
alloc-null p e = ground arith

alloc-head :
    (p : Slots)
    → p.free_head ≢ null_idx
    → alloc p
      ≡ (record p { free_head = p.free_nexts p.free_head; used = add32 p.used 1 }, p.free_head)
unfolding alloc
alloc-head p ne = let t : (p.free_head == null_idx) ≡ false = ground arith in rw t

-- What `alloc` does with the free list `xs`.
abbrev pub Allocated : Slots → ℕ → List ℕ → Type 0
Allocated p capacity [] = alloc p ≡ (p, null_idx)
Allocated p capacity (x ∷ xs) =
    ((alloc p).1 ≡ x) × (x < capacity) × Absent x xs × IsPool (alloc p).0 capacity xs

-- On a pool whose free slots are `free`, `alloc` hands out the first of them, which lies in the pool
-- and is free no longer; with no slot free it returns NULL_IDX and changes nothing.
pub alloc-IsPool :
    (p : Slots) (capacity : ℕ) (free : List ℕ) → IsPool p capacity free → Allocated p capacity free
alloc-IsPool p capacity [] v = alloc-null p v.chain
alloc-IsPool p capacity (x ∷ xs) v =
    let ne : p.free_head ≢ null_idx = λ e. v.chain.1 (sym v.chain.0 ∙ e) in
    let eq = alloc-head p ne in
    (
      ap (λ r. r.1) eq ∙ v.chain.0,
      v.below.0,
      v.distinct.0,
      rw eq (record {
        chain = rw v.chain.0 v.chain.2;
        distinct = v.distinct.1;
        below = v.below.1;
        used = rw (add32_exact p.used 1 (omega (arith, v.used, v.small))) (omega (arith, v.used));
        small = v.small;
      }),
    )

-- On a pool whose free slots are `free`, with some slot in use, giving back a slot of the pool that is
-- not free puts it first among the free slots.
pub free_slot-IsPool :
    (p : Slots) (capacity : ℕ) (free : List ℕ) (x : ℕ)
    → IsPool p capacity free
    → x < capacity
    → Absent x free
    → 0 < p.used
    → IsPool (free_slot p x) capacity (x ∷ free)
unfolding free_slot
free_slot-IsPool p capacity free x v lt out some_used = record {
  chain = (
    refl,
    omega (arith, v.small),
    rw (update_self p.free_nexts x p.free_head)
        (Chain-update p.free_nexts p.free_head free x p.free_head out v.chain),
  );
  distinct = (out, v.distinct);
  below = (lt, v.below);
  used =
      rw (sub32_exact p.used 1 some_used (omega (arith, v.used, v.small))) (omega (arith, v.used));
  small = v.small;
}
