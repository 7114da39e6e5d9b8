-- ===== src/Allocator/FreeList.antt =====
-- The allocator's free list: each object is handed out to one user at a time.
use options_engine.Prelude.{
  ℕ, zero, suc, ◌+◌, ◌-◌, ◌≤◌, ◌<◌, ◌≡◌, refl, sym, ◌≢◌, Option, none, some, List, [], ◌∷◌, arith,
  length, none-ne,
}
use options_engine.Prelude.Words.{u64_mod, add64, add64_exact, sub64_exact}
use options_engine.Prelude.Arrays.{Array, update, update_self, update_ne}
use options_engine.Allocator.{Pool, thread_slots, construct, allocate, deallocate, available}

-- From `h` the free list runs through `xs`, and ends in `nullptr`.
abbrev pub Chain : Array (Option ℕ) → Option ℕ → List ℕ → Type 0
Chain f h [] = h ≡ none
Chain f h (x ∷ xs) = (h ≡ some x) × Chain f (f x) xs

abbrev pub Absent : ℕ → List ℕ → Type 0
Absent a [] = Unit {0}
Absent a (x ∷ xs) = (a ≢ x) × Absent a xs

abbrev pub Distinct : List ℕ → Type 0
Distinct [] = Unit {0}
Distinct (x ∷ xs) = Absent x xs × Distinct xs

abbrev pub Below : ℕ → List ℕ → Type 0
Below n [] = Unit {0}
Below n (x ∷ xs) = (x < n) × Below n xs

pub record IsPool (p : Pool) (free : List ℕ) : Type 0 where
  pub chain : Chain p.next p.free_head free
  pub distinct : Distinct free
  pub below : Below p.total free
  pub counted : p.allocated + length free ≡ p.total
  pub small : p.total < u64_mod

Chain-update :
    (f : Array (Option ℕ)) (h : Option ℕ) (xs : List ℕ) (i : ℕ) (v : Option ℕ)
    → Absent i xs
    → Chain f h xs
    → Chain (update f i v) h xs
Chain-update f h [] i v out c = c
Chain-update f h (x ∷ xs) i v out c =
    (c.0, rw (update_ne f i x v out.0) (Chain-update f (f x) xs i v out.1 c.1))

-- The slots `i - 1, …, 0` put in front of `xs`.
abbrev pub slots_below : ℕ → List ℕ → List ℕ
slots_below zero xs = xs
slots_below (suc i) xs = slots_below i (i ∷ xs)

abbrev From : ℕ → List ℕ → Type 0
From i [] = Unit {0}
From i (x ∷ xs) = (i ≤ x) × From i xs

From-down : (i : ℕ) (xs : List ℕ) → From (suc i) xs → From i xs
From-down i [] h = tt
From-down i (x ∷ xs) h = (omega arith, From-down i xs h.1)

From-Absent : (i : ℕ) (xs : List ℕ) → From (suc i) xs → Absent i xs
From-Absent i [] h = tt
From-Absent i (x ∷ xs) h = (omega arith, From-Absent i xs h.1)

record Threading (p : Pool) (i : ℕ) (xs : List ℕ) : Type 0 where
  chain : Chain p.next p.free_head xs
  distinct : Distinct xs
  above : From i xs
  below : Below p.total xs
  fits : i ≤ p.total
  len : i + length xs ≡ p.total
  fresh : p.allocated ≡ 0
  small : p.total < u64_mod

thread_slots-IsPool :
    (i : ℕ) (p : Pool) (xs : List ℕ)
    → Threading p i xs
    → IsPool (thread_slots i p) (slots_below i xs)
unfolding thread_slots
thread_slots-IsPool zero p xs v = record {
  chain = v.chain;
  distinct = v.distinct;
  below = v.below;
  counted = omega (arith, v.len, v.fresh);
  small = v.small;
}
thread_slots-IsPool (suc i) p xs v =
    thread_slots-IsPool i (record p { next = update p.next i p.free_head; free_head = some i })
      (i ∷ xs)
      (record {
        chain = (
          refl,
          rw (update_self p.next i p.free_head)
              (Chain-update p.next p.free_head xs i p.free_head (From-Absent i xs v.above) v.chain),
        );
        distinct = (From-Absent i xs v.above, v.distinct);
        above = (omega arith, From-down i xs v.above);
        below = (omega (arith, v.fits), v.below);
        fits = omega (arith, v.fits);
        len = omega (arith, v.len);
        fresh = v.fresh;
        small = v.small;
      })

-- After the constructor every one of fewer than 2 ^ 64 objects is free, lowest first.
pub construct-IsPool :
    (n : ℕ) (raw : Array (Option ℕ)) → n < u64_mod → IsPool (construct n raw) (slots_below n [])
unfolding construct
construct-IsPool n raw h = thread_slots-IsPool n _ [] (record {
  chain = refl;
  distinct = tt;
  above = tt;
  below = tt;
  fits = omega arith;
  len = omega arith;
  fresh = refl;
  small = h;
})

abbrev pub Allocated : Pool → List ℕ → Type 0
Allocated p [] = allocate p ≡ (p, none)
Allocated p (x ∷ xs) =
    ((allocate p).1 ≡ some x) × (x < p.total) × Absent x xs × IsPool (allocate p).0 xs

allocate-none : (p : Pool) → p.free_head ≡ none → allocate p ≡ (p, none)
unfolding allocate
allocate-none p e = at p.free_head e
  where
    at :
        (h : Option ℕ)
        → h ≡ none
        → ◌≡◌ {A = Pool × Option ℕ}
            (elim h [
              | none ↦ (p, none)
              | some i ↦
                  (record p { free_head = p.next i; allocated = add64 p.allocated 1 }, some i)
            ])
            (p, none)
    at none e = refl
    at (some i) e = none-ne (sym e)

-- On a pool whose free objects are `free`, `allocate` hands out the first of them, which lies in the
-- slab and is free no longer; with none free it returns `nullptr` and changes nothing.
pub allocate-IsPool : (p : Pool) (free : List ℕ) → IsPool p free → Allocated p free
unfolding allocate
allocate-IsPool p [] v = allocate-none p v.chain
allocate-IsPool p (x ∷ xs) v =
    let one = add64_exact p.allocated 1 (omega (arith, v.counted, v.small)) in
    rw (v.chain.0, allocate)
      (
        refl,
        v.below.0,
        v.distinct.0,
        record {
          chain = v.chain.1;
          distinct = v.distinct.1;
          below = v.below.1;
          counted = rw one (omega (arith, v.counted));
          small = v.small;
        },
      )

-- On a pool whose free objects are `free`, with some object allocated, giving back an object of the
-- slab that is not free puts it first among the free objects, and `available` is then their number.
pub deallocate-IsPool :
    (p : Pool) (free : List ℕ) (x : ℕ)
    → IsPool p free
    → x < p.total
    → Absent x free
    → 0 < p.allocated
    → IsPool (deallocate p x) (x ∷ free) × (available (deallocate p x) ≡ suc (length free))
unfolding deallocate available
deallocate-IsPool p free x v lt out some_out =
    let one = sub64_exact p.allocated 1 some_out (omega (arith, v.counted, v.small)) in
    let left : p.allocated - 1 ≤ p.total = omega (arith, v.counted) in
    (
      record {
        chain = (
          refl,
          rw (update_self p.next x p.free_head)
              (Chain-update p.next p.free_head free x p.free_head out v.chain),
        );
        distinct = (out, v.distinct);
        below = (lt, v.below);
        counted = rw one (omega (arith, v.counted));
        small = v.small;
      },
      rw (one, sub64_exact p.total (p.allocated - 1) left v.small) (omega (arith, v.counted)),
    )
