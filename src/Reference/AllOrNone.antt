-- ===== src/Reference/AllOrNone.antt =====
-- `RefBook::add` of a fill-or-kill order: refused whole, or filled whole.
use options_engine.Prelude.{
  ℕ, ◌+◌, ◌-◌, ◌≤◌, ◌≡◌, refl, ap, ◌⊎◌, Bool, true, false, ◌&&◌, List, [], ◌∷◌, ◌++◌, min, arith,
  ltb, ◌==◌, Bool-cases, inl, inr,
}
use options_engine.Types.{Price, Qty, Order, is_buy, is_fok, uint32_max}
use options_engine.Reference.{
  RefOrder, Fill, RefLevel, RefBook, RefOutcome, Taker, taker, beyond, is_wall, Swept, sweep_queue,
  sweep, available_queue, available, passive_side, put_passive, outcome, after_sweep, add_swept,
  add,
}
use options_engine.Reference.Sweep.{after_level, sweep-conserves, fills_total}

-- Of `need` shares, with `total` found, what is left to fill is no more than what was not found; if the
-- search goes on, the queue is used up or nothing is left.
record IsCovered (need : ℕ) (found : Qty × Bool) (side : List RefOrder) (left : Qty) : Type 0 where
  left_small : left ≤ need - found.0
  used_up : found.1 ≡ false → (left ≡ 0) ⊎ (side ≡ [])

available_queue-covers :
    (t : Taker) (px : Price) (need qty total : Qty) (q : List RefOrder)
    → need ≤ uint32_max
    → qty ≤ need - total
    → IsCovered need
        (available_queue t.account total q)
        (sweep_queue t px qty q).side
        (sweep_queue t px qty q).left
unfolding sweep_queue available_queue
available_queue-covers t px need qty total [] small h = record {
  left_small = h;
  used_up = λ _. inr refl;
}
available_queue-covers t px need qty total (o ∷ q) small h =
    let f = min qty o.rem in
    let total' = min (total + o.rem) uint32_max in
    let rest = available_queue-covers t px need (qty - f) total' q small (omega arith) in
    elim (Bool-cases (is_wall t.account o)) [
      | inl b ↦ elim (Bool-cases (qty == 0)) [
        | inl a ↦ rw (a, b) (record { left_small = h; used_up = λ e. cc })
        | inr a ↦ rw (a, b) (record { left_small = h; used_up = λ e. cc })
      ]
      | inr b ↦ elim (Bool-cases (qty == 0)) [
        | inl a ↦
            rw (a, b) (zero_left (available_queue t.account total' q) (o ∷ q) qty (test_zero qty a))
        | inr a ↦ elim (Bool-cases (o.rem == f)) [
          | inl c ↦ rw (a, b, c) (record { left_small = rest.left_small; used_up = rest.used_up })
          | inr c ↦
              rw (a, b, c)
                (zero_left (available_queue t.account total' q) _ (qty - f) (used qty o.rem c))
        ]
      ]
    ]
  where
    zero_left :
        (found : Qty × Bool) (side : List RefOrder) (left : Qty)
        → left ≡ 0
        → IsCovered need found side left
    zero_left found side left e = record { left_small = omega arith; used_up = λ _. inl e }

    test_zero : (n : ℕ) → (n == 0) ≡ true → n ≡ 0
    test_zero n p = ground arith

    used : (n r : ℕ) → (r == min n r) ≡ false → n - min n r ≡ 0
    used n r p = ground arith

after_level-left :
    (l : RefLevel) (ls : List RefLevel) (w : Swept (List RefOrder)) (rest : Swept (List RefLevel))
    (n : ℕ)
    → w.left ≤ n
    → rest.left ≤ n
    → (after_level l ls w rest).left ≤ n
after_level-left l ls w rest n h k = at w.side
  where
    at : (side : List RefOrder) → (after_level l ls (record w { side = side }) rest).left ≤ n
    at [] = k
    at (o ∷ q) = h

after_level-used :
    (l : RefLevel) (ls : List RefLevel) (w : Swept (List RefOrder)) (rest : Swept (List RefLevel))
    (n : ℕ)
    → (w.left ≡ 0) ⊎ (w.side ≡ [])
    → rest.left ≤ w.left
    → rest.left ≤ n
    → (after_level l ls w rest).left ≤ n
after_level-used l ls w rest n (inl z) le k = after_level-left l ls w rest n (omega arith) k
after_level-used l ls w rest n (inr e) le k = at w.side e
  where
    at :
        (side : List RefOrder)
        → side ≡ []
        → (after_level l ls (record w { side = side }) rest).left ≤ n
    at [] e = k
    at (o ∷ q) e = cc

pub sweep-left : (t : Taker) (qty : Qty) (ls : List RefLevel) → (sweep t qty ls).left ≤ qty
sweep-left t qty ls = omega (arith, (sweep-conserves t qty ls).0)

available-beyond :
    (t : Taker) (total : Qty) (l : RefLevel) (ls : List RefLevel)
    → beyond t.is_buy t.limit l.px ≡ true
    → available t total (l ∷ ls) ≡ total
unfolding available
available-beyond t total l ls b = rw b refl

le_sub : (a need x total : ℕ) → a ≤ need - total → x ≡ total → a ≤ need - x
le_sub a need x total h e = omega arith

at_most : (a b c : ℕ) → a ≤ b → b ≤ c → a ≤ c
at_most a b c h k = omega arith

pub available-covers :
    (t : Taker) (need qty total : Qty) (ls : List RefLevel)
    → need ≤ uint32_max
    → qty ≤ need - total
    → (sweep t qty ls).left ≤ need - available t total ls
unfolding sweep available
available-covers t need qty total [] small h = h
available-covers t need qty total (l ∷ ls) small h =
    let w = sweep_queue t l.px qty l.queue in
    let found = available_queue t.account total l.queue in
    let v = available_queue-covers t l.px need qty total l.queue small h in
    let rest = available-covers t need w.left found.0 ls small v.left_small in
    elim (Bool-cases (beyond t.is_buy t.limit l.px)) [
      | inl b ↦
          le_sub (sweep t qty (l ∷ ls)).left need (available t total (l ∷ ls)) total
            (at_most _ qty _ (sweep-left t qty (l ∷ ls)) h) (available-beyond t total l ls b)
      | inr b ↦ elim (Bool-cases (qty == 0)) [
        | inl a ↦ let z : qty ≡ 0 = test_zero qty a in rw a (omega (arith, z))
        | inr a ↦ elim (Bool-cases found.1) [
          | inl c ↦
              rw (a, b, c, and_false t.limited)
                (after_level-left l ls w (sweep t w.left ls) (need - found.0) v.left_small
                  (omega (arith, sweep-left t w.left ls, v.left_small)))
          | inr c ↦
              rw (a, b, c, and_false t.limited)
                (after_level-used l ls w (sweep t w.left ls) (need - available t found.0 ls)
                  (v.used_up c) (sweep-left t w.left ls) rest)
        ]
      ]
    ]
  where
    test_zero : (n : ℕ) → (n == 0) ≡ true → n ≡ 0
    test_zero n p = ground arith

    and_false : (x : Bool) → (x && false) ≡ false
    and_false true = refl
    and_false false = refl

-- What `add` does with a fill-or-kill order: refuse it and touch nothing, or fill it whole, its fills
-- appended to the book's.
pub data AllOrNone (b : RefBook) (o : Order) (r : RefBook × RefOutcome) : Type 0 where
  refused : r ≡ (b, outcome 0 0 true false) → AllOrNone b o r
  filled :
      (fs : List Fill)
      → r.0.fills ≡ b.fills ++ fs
      → fills_total fs ≡ o.qty
      → r.1 ≡ outcome 0 o.qty false false
      → AllOrNone b o r

after_sweep-fills :
    (b : RefBook) (o : Order) (w : Swept (List RefLevel))
    → (after_sweep b o w).fills ≡ b.fills ++ w.fills
unfolding after_sweep
after_sweep-fills b o w = at (is_buy o.side)
  where
    at :
        (x : Bool)
        → (put_passive x w.side (record b {
          fills = b.fills ++ w.fills;
          resting_count = b.resting_count - w.popped;
        })).fills
          ≡ b.fills ++ w.fills
    at true = refl
    at false = refl

-- An order that a sweep fills whole rests nowhere.
add_swept-filled :
    (max_orders : ℕ) (b : RefBook) (o : Order)
    → (sweep (taker o) o.qty (passive_side (is_buy o.side) b)).left ≡ 0
    → AllOrNone b o (add_swept max_orders b o)
unfolding add_swept
add_swept-filled max_orders b o z =
    let w = sweep (taker o) o.qty (passive_side (is_buy o.side) b) in
    let v = sweep-conserves (taker o) o.qty (passive_side (is_buy o.side) b) in
    let all : o.qty - 0 ≡ o.qty = omega arith in
    rw z (
      filled w.fills (after_sweep-fills b o w) (omega (arith, v.0, z))
        (ap (λ n. outcome 0 n false false) all))

-- A fill-or-kill order of a 32-bit quantity is refused with the book untouched, or its new fills add up to
-- its quantity and nothing of it rests.
pub add-AllOrNone :
    (max_orders : ℕ) (b : RefBook) (o : Order)
    → is_fok o.type ≡ true
    → o.qty ≤ uint32_max
    → AllOrNone b o (add max_orders b o)
unfolding add
add-AllOrNone max_orders b o kill small =
    let side = passive_side (is_buy o.side) b in
    elim (Bool-cases (ltb (available (taker o) 0 side) o.qty)) [
      | inl short ↦ rw (kill, short) (refused refl)
      | inr enough ↦
          let left = available-covers (taker o) o.qty o.qty 0 side small (omega arith) in
          rw (kill, enough)
            (add_swept-filled max_orders b o (
              none_left (sweep (taker o) o.qty side).left o.qty (available (taker o) 0 side) left
                enough))
    ]
  where
    none_left : (l n a : ℕ) → l ≤ n - a → ltb a n ≡ false → l ≡ 0
    none_left l n a h e = ground arith
