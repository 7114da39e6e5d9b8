-- ===== src/Reference/Accounts.antt =====
-- `RefBook::add`: the shares and the orders of the whole book.
use options_engine.Prelude.{
  ℕ, ◌+◌, ◌-◌, ◌≤◌, ◌≡◌, refl, ap, ◌∙◌, Bool, true, false, ◌&&◌, not, List, [], ◌∷◌, ◌++◌, arith,
  ltb, leb, Bool-cases, inl, inr, length-append,
}
use options_engine.Prelude.Int.{eqb_ℤ}
use options_engine.Types.{Price, Qty, Order, is_buy, is_limit, is_fok}
use options_engine.OrderBook.Levels.{before}
use options_engine.Reference.{
  RefOrder, Fill, RefLevel, RefBook, RefOutcome, taker, sweep, available, push_back, passive_side,
  put_passive, own_side, put_own, after_sweep, add_swept, add,
}
use options_engine.Reference.Sweep.{queue_total, side_total, side_orders, sweep-conserves}

abbrev pub book_total : RefBook → ℕ
book_total b = side_total b.bids + side_total b.asks

abbrev pub book_orders : RefBook → ℕ
book_orders b = side_orders b.bids + side_orders b.asks

queue_total-append :
    (q : List RefOrder) (o : RefOrder) → queue_total (q ++ o ∷ []) ≡ queue_total q + o.rem
queue_total-append [] o = omega arith
queue_total-append (x ∷ q) o = omega (arith, queue_total-append q o)

push_back-totals :
    (desc : Bool) (px : Price) (o : RefOrder) (ls : List RefLevel)
    → (side_total (push_back desc px o ls) ≡ side_total ls + o.rem)
      × (side_orders (push_back desc px o ls) ≡ side_orders ls + 1)
unfolding push_back
push_back-totals desc px o [] = (omega arith, omega arith)
push_back-totals desc px o (l ∷ ls) =
    let (total, orders) = push_back-totals desc px o ls in
    elim (Bool-cases (before desc l.px px)) [
      | inl a ↦ rw (a, push_back) (omega (arith, total), omega (arith, orders))
      | inr a ↦ elim (Bool-cases (eqb_ℤ l.px px)) [
        | inl c ↦
            rw (a, c, push_back)
              (
                omega (arith, queue_total-append l.queue o),
                omega (arith, length-append l.queue (o ∷ [])),
              )
        | inr c ↦ rw (a, c, push_back) (omega arith, omega arith)
      ]
    ]

put_passive-totals :
    (x : Bool) (s : List RefLevel) (b : RefBook)
    → (book_total (put_passive x s b) + side_total (passive_side x b) ≡ book_total b + side_total s)
      × (book_orders (put_passive x s b) + side_orders (passive_side x b)
          ≡ book_orders b + side_orders s)
      × ((put_passive x s b).resting_count ≡ b.resting_count)
put_passive-totals true s b = (omega arith, omega arith, refl)
put_passive-totals false s b = (omega arith, omega arith, refl)

put_own-totals :
    (x : Bool) (s : List RefLevel) (b : RefBook)
    → (book_total (put_own x s b) + side_total (own_side x b) ≡ book_total b + side_total s)
      × (book_orders (put_own x s b) + side_orders (own_side x b) ≡ book_orders b + side_orders s)
      × ((put_own x s b).resting_count ≡ b.resting_count)
put_own-totals true s b = (omega arith, omega arith, refl)
put_own-totals false s b = (omega arith, omega arith, refl)

-- What an addition to `b` of an order of `qty` shares leaves and returns.
pub record IsAccounted (b : RefBook) (qty : Qty) (r : RefBook × RefOutcome) : Type 0 where
  pub shares : book_total r.0 + r.1.filled ≡ book_total b + r.1.resting
  pub bounded : r.1.filled + r.1.resting ≤ qty
  pub counted : r.0.resting_count ≡ book_orders r.0

passive-le : (x : Bool) (b : RefBook) → side_orders (passive_side x b) ≤ book_orders b
passive-le true b = omega arith
passive-le false b = omega arith

after_sweep-totals :
    (b : RefBook) (o : Order)
    → b.resting_count ≡ book_orders b
    → let w = sweep (taker o) o.qty (passive_side (is_buy o.side) b) in
      let b' = after_sweep b o w in
      (book_total b' + (o.qty - w.left) ≡ book_total b)
      × (b'.resting_count ≡ book_orders b')
      × (w.left ≤ o.qty)
unfolding after_sweep
after_sweep-totals b o e =
    let w = sweep (taker o) o.qty (passive_side (is_buy o.side) b) in
    let (taken, given, gone) = sweep-conserves (taker o) o.qty (passive_side (is_buy o.side) b) in
    let b1 : RefBook = record b {
      fills = b.fills ++ w.fills;
      resting_count = b.resting_count - w.popped;
    } in
    let (total, orders, count) = put_passive-totals (is_buy o.side) w.side b1 in
    let same = passive_same (is_buy o.side) b (b.fills ++ w.fills) (b.resting_count - w.popped) in
    let le = passive-le (is_buy o.side) b in
    (
      omega (arith, total, taken, given, ap side_total same),
      count ∙ omega (arith, orders, gone, e, ap side_orders same, le),
      omega (arith, taken),
    )
  where
    passive_same :
        (x : Bool) (b : RefBook) (fs : List Fill) (n : ℕ)
        → passive_side x (record b { fills = fs; resting_count = n }) ≡ passive_side x b
    passive_same true b fs n = refl
    passive_same false b fs n = refl

-- Booking `left` shares on a side.
booked-totals :
    (x : Bool) (px : Price) (entry : RefOrder) (b : RefBook)
    → let b' = put_own x (push_back x px entry (own_side x b)) b in
      (book_total b' ≡ book_total b + entry.rem)
      × (book_orders b' ≡ book_orders b + 1)
      × (b'.resting_count ≡ b.resting_count)
booked-totals x px entry b =
    let (total, orders, count) = put_own-totals x (push_back x px entry (own_side x b)) b in
    let (pushed, one) = push_back-totals x px entry (own_side x b) in
    (omega (arith, total, pushed), omega (arith, orders, one), count)

counted-totals :
    (b : RefBook) (n : ℕ)
    → (book_total (record b { resting_count = n }) ≡ book_total b)
      × (book_orders (record b { resting_count = n }) ≡ book_orders b)
counted-totals b n = (refl, refl)

add_swept-IsAccounted :
    (max_orders : ℕ) (b : RefBook) (o : Order)
    → b.resting_count ≡ book_orders b
    → IsAccounted b o.qty (add_swept max_orders b o)
unfolding add_swept
add_swept-IsAccounted max_orders b o e =
    let w = sweep (taker o) o.qty (passive_side (is_buy o.side) b) in
    let b' = after_sweep b o w in
    let (total, count, le) = after_sweep-totals b o e in
    let entry : RefOrder = record { id = o.id; rem = w.left; account = o.account_id } in
    let (booked, one, same) = booked-totals (is_buy o.side) o.price entry b' in
    elim (Bool-cases (ltb 0 w.left && is_limit o.type && not w.walled)) [
      | inl t ↦ elim (Bool-cases (leb max_orders b'.resting_count)) [
        | inl u ↦
            rw (t, u)
              (record { shares = omega (arith, total); bounded = omega arith; counted = count })
        | inr u ↦
            rw (t, u)
              (record {
                shares = omega (arith, total, booked, le);
                bounded = omega (arith, le);
                counted = omega (arith, one, count);
              })
      ]
      | inr t ↦
          rw t (record { shares = omega (arith, total); bounded = omega arith; counted = count })
    ]

-- On a reference book whose count of resting orders is right, `add` conserves shares: those resting after
-- it and those it filled are those resting before and those it booked. What it fills and books is no more
-- than the order's quantity, and the count of resting orders stays right.
pub add-IsAccounted :
    (max_orders : ℕ) (b : RefBook) (o : Order)
    → b.resting_count ≡ book_orders b
    → IsAccounted b o.qty (add max_orders b o)
unfolding add
add-IsAccounted max_orders b o e =
    elim (Bool-cases
      (is_fok o.type && ltb (available (taker o) 0 (passive_side (is_buy o.side) b)) o.qty)) [
        | inl t ↦ rw t (record { shares = refl; bounded = omega arith; counted = e })
        | inr t ↦ rw t (add_swept-IsAccounted max_orders b o e)
      ]
