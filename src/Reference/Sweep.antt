-- ===== src/Reference/Sweep.antt =====
-- `RefBook::sweep`: no share and no order is made or lost.
use options_engine.Prelude.{
  ℕ, ◌+◌, ◌-◌, ◌≡◌, Bool, true, false, ◌&&◌, List, [], ◌∷◌, ◌++◌, min, arith, ◌==◌, Bool-cases, inl,
  inr, length,
}
use options_engine.Types.{Price, Qty}
use options_engine.Reference.{
  RefOrder, Fill, RefLevel, Taker, beyond, is_wall, Swept, sweep_queue, sweep,
}

-- The shares of a queue, of a side, and of the fills.
abbrev pub queue_total : List RefOrder → ℕ
queue_total [] = 0
queue_total (o ∷ q) = o.rem + queue_total q

abbrev pub side_total : List RefLevel → ℕ
side_total [] = 0
side_total (l ∷ ls) = queue_total l.queue + side_total ls

abbrev pub fills_total : List Fill → ℕ
fills_total [] = 0
fills_total (f ∷ fs) = f.qty + fills_total fs

-- The orders of a side.
abbrev pub side_orders : List RefLevel → ℕ
side_orders [] = 0
side_orders (l ∷ ls) = length l.queue + side_orders ls

pub fills_total-append :
    (xs ys : List Fill) → fills_total (xs ++ ys) ≡ fills_total xs + fills_total ys
fills_total-append [] ys = omega arith
fills_total-append (x ∷ xs) ys = omega (arith, fills_total-append xs ys)

-- `w` left `left` shares of `qty`, and the fills and the popped orders account for the difference.
record IsBalanced (qty shares orders : ℕ) (fills : List Fill) (left shares' orders' popped : ℕ)
    : Type 0 where
  taken : fills_total fills + left ≡ qty
  given : fills_total fills + shares' ≡ shares
  gone : popped + orders' ≡ orders

abbrev QueueBalanced : Qty → List RefOrder → Swept (List RefOrder) → Type 0
QueueBalanced qty q w =
    IsBalanced qty (queue_total q) (length q) w.fills w.left (queue_total w.side) (length w.side)
      w.popped

sweep_queue-IsBalanced :
    (t : Taker) (px : Price) (qty : Qty) (q : List RefOrder)
    → QueueBalanced qty q (sweep_queue t px qty q)
unfolding sweep_queue
sweep_queue-IsBalanced t px qty [] = record {
  taken = omega arith;
  given = omega arith;
  gone = omega arith;
}
sweep_queue-IsBalanced t px qty (o ∷ q) =
    let f = min qty o.rem in
    let rest = sweep_queue-IsBalanced t px (qty - f) q in
    elim (Bool-cases (qty == 0)) [
      | inl a ↦
          rw (a, sweep_queue)
            (record { taken = omega arith; given = omega arith; gone = omega arith })
      | inr a ↦ elim (Bool-cases (is_wall t.account o)) [
        | inl b ↦
            rw (a, b, sweep_queue)
              (record { taken = omega arith; given = omega arith; gone = omega arith })
        | inr b ↦ elim (Bool-cases (o.rem == f)) [
          | inl c ↦
              rw (a, b, c, sweep_queue)
                (record {
                  taken = omega (arith, rest.taken);
                  given = (let e : o.rem ≡ f = test-true o.rem f c in omega (arith, rest.given, e));
                  gone = omega (arith, rest.gone);
                })
          | inr c ↦
              rw (a, b, c, sweep_queue)
                (record { taken = omega arith; given = omega arith; gone = omega arith })
        ]
      ]
    ]
  where
    test-true : (a b : ℕ) → (a == b) ≡ true → a ≡ b
    test-true a b p = ground arith

abbrev SideBalanced : Qty → List RefLevel → Swept (List RefLevel) → Type 0
SideBalanced qty ls w =
    IsBalanced qty (side_total ls) (side_orders ls) w.fills w.left (side_total w.side)
      (side_orders w.side) w.popped

none_taken :
    (qty : Qty) (ls : List RefLevel)
    → SideBalanced qty ls (record { side = ls; left = qty; fills = []; walled = false; popped = 0 })
none_taken qty ls = record { taken = omega arith; given = omega arith; gone = omega arith }

-- The end of a round of the outer loop.
abbrev pub after_level :
    RefLevel → List RefLevel → Swept (List RefOrder) → Swept (List RefLevel) → Swept (List RefLevel)
after_level l ls w rest = elim w.side [
  | [] ↦ record rest { fills = w.fills ++ rest.fills; popped = w.popped + rest.popped }
  | o ∷ q ↦ record {
    side = record { px = l.px; queue = o ∷ q } ∷ ls;
    left = w.left;
    fills = w.fills;
    walled = w.walled;
    popped = w.popped;
  }
]

after_level-IsBalanced :
    (l : RefLevel) (ls : List RefLevel) (qty : Qty) (side' : List RefOrder) (left : Qty)
    (fills : List Fill) (walled : Bool) (popped : ℕ) (rest : Swept (List RefLevel))
    → QueueBalanced qty l.queue
        (record { side = side'; left = left; fills = fills; walled = walled; popped = popped })
    → SideBalanced left ls rest
    → SideBalanced qty (l ∷ ls) (
        after_level l ls
          (record { side = side'; left = left; fills = fills; walled = walled; popped = popped })
          rest)
after_level-IsBalanced l ls qty [] left fills walled popped rest v u = record {
  taken = omega (arith, v.taken, u.taken, fills_total-append fills rest.fills);
  given = omega (arith, v.given, u.given, fills_total-append fills rest.fills);
  gone = omega (arith, v.gone, u.gone);
}
after_level-IsBalanced l ls qty (o ∷ q) left fills walled popped rest v u = record {
  taken = v.taken;
  given = omega (arith, v.given);
  gone = omega (arith, v.gone);
}

sweep-IsBalanced :
    (t : Taker) (qty : Qty) (ls : List RefLevel) → SideBalanced qty ls (sweep t qty ls)
unfolding sweep
sweep-IsBalanced t qty [] = none_taken qty []
sweep-IsBalanced t qty (l ∷ ls) =
    let w = sweep_queue t l.px qty l.queue in
    elim (Bool-cases (qty == 0)) [
      | inl a ↦ rw (a, sweep) (none_taken qty (l ∷ ls))
      | inr a ↦ elim (Bool-cases (t.limited && beyond t.is_buy t.limit l.px)) [
        | inl b ↦ rw (a, b, sweep) (none_taken qty (l ∷ ls))
        | inr b ↦
            rw (a, b, sweep)
              (after_level-IsBalanced l ls qty w.side w.left w.fills w.walled w.popped
                (sweep t w.left ls) (sweep_queue-IsBalanced t l.px qty l.queue)
                (sweep-IsBalanced t w.left ls))
      ]
    ]

-- A sweep conserves shares and orders: what it fills and what it leaves of the quantity add up to the
-- quantity, what it fills and what it leaves resting add up to what was resting, and the orders popped
-- and those left add up to the orders before.
pub sweep-conserves :
    (t : Taker) (qty : Qty) (ls : List RefLevel)
    → let w = sweep t qty ls in
      (fills_total w.fills + w.left ≡ qty)
      × (fills_total w.fills + side_total w.side ≡ side_total ls)
      × (w.popped + side_orders w.side ≡ side_orders ls)
sweep-conserves t qty ls = let v = sweep-IsBalanced t qty ls in (v.taken, v.given, v.gone)
