-- ===== src/Reference/Uncrossed/Add.antt =====
-- `RefBook::add` as a whole: an order that rests does so only when the other side is out of its reach.
use mathlib.Core.Path.{subst}
use options_engine.Prelude.{
  ℕ, ◌+◌, ◌-◌, ◌≡◌, refl, ap, sym, ◌∙◌, ◌⊎◌, Bool, true, false, ◌&&◌, not, List, ◌++◌, arith, ltb,
  leb, Bool-cases, inl, inr,
}
use options_engine.Types.{
  Order, OrderType, limit, market, ioc, fok, is_buy, is_limit, is_market, is_fok,
}
use options_engine.OrderBook.Levels.{before}
use options_engine.Reference.{
  RefOrder, RefLevel, RefBook, taker, Swept, sweep, available, push_back, passive_side, put_passive,
  own_side, put_own, after_sweep, add_swept, add,
}
use options_engine.Reference.Uncrossed.{
  Behind, IsSorted, Apart, All-map, All-swap, push_back-All, push_back-IsSorted,
}
use options_engine.Reference.Uncrossed.Sweep.{sweep-All, sweep-IsSorted, Stops, sweep-Stops}

-- Both sides sorted, best price first, and every bid below every ask.
pub record IsUncrossed (b : RefBook) : Type 0 where
  pub bids : IsSorted true b.bids
  pub asks : IsSorted false b.asks
  pub apart : Apart true b.bids b.asks

-- The same, seen from the side of an order.
abbrev Seen : Bool → List RefLevel → List RefLevel → Type 0
Seen x own others = IsSorted x own × IsSorted (not x) others × Apart x own others

seen : (x : Bool) (b : RefBook) → IsUncrossed b → Seen x (own_side x b) (passive_side x b)
seen true b v = (v.bids, v.asks, v.apart)
seen false b v =
    (v.asks, v.bids, All-swap (λ m l. before false m.px l.px ≡ true) b.bids b.asks v.apart)

Seen-IsUncrossed :
    (x : Bool) (b : RefBook) (own others : List RefLevel)
    → own_side x b ≡ own
    → passive_side x b ≡ others
    → Seen x own others
    → IsUncrossed b
Seen-IsUncrossed x b own others e k v =
    at x (subst (λ s. Seen x s (passive_side x b)) (sym e) (subst (Seen x own) (sym k) v))
  where
    at : (y : Bool) → Seen y (own_side y b) (passive_side y b) → IsUncrossed b
    at true (s, t, u) = record { bids = s; asks = t; apart = u }
    at false (s, t, u) = record {
      bids = t;
      asks = s;
      apart = All-swap (λ l m. before true l.px m.px ≡ true) b.asks b.bids u;
    }

after_sweep-sides :
    (b : RefBook) (o : Order) (w : Swept (List RefLevel))
    → (own_side (is_buy o.side) (after_sweep b o w) ≡ own_side (is_buy o.side) b)
      × (passive_side (is_buy o.side) (after_sweep b o w) ≡ w.side)
unfolding after_sweep
after_sweep-sides b o w = at (is_buy o.side)
  where
    b1 : RefBook
    b1 = record b { fills = b.fills ++ w.fills; resting_count = b.resting_count - w.popped }

    at :
        (x : Bool)
        → (own_side x (put_passive x w.side b1) ≡ own_side x b)
          × (passive_side x (put_passive x w.side b1) ≡ w.side)
    at true = (refl, refl)
    at false = (refl, refl)

booked-sides :
    (x : Bool) (s : List RefLevel) (b : RefBook) (n : ℕ)
    → (own_side x (record (put_own x s b) { resting_count = n }) ≡ s)
      × (passive_side x (record (put_own x s b) { resting_count = n }) ≡ passive_side x b)
booked-sides true s b n = (refl, refl)
booked-sides false s b n = (refl, refl)

module _ (b : RefBook) (o : Order) (v : IsUncrossed b) where
  abbrev x : Bool
  x = is_buy o.side

  swept : Swept (List RefLevel)
  swept = sweep (taker o) o.qty (passive_side x b)

  swept-Seen : Seen x (own_side x b) swept.side
  unfolding swept
  swept-Seen =
      let (own, others, apart) = seen x b v in
      (
        own,
        sweep-IsSorted (not x) (taker o) o.qty (passive_side x b) others,
        All-map (λ l. Behind (not x) l.px (passive_side x b)) (λ l. Behind (not x) l.px swept.side)
            (own_side x b)
            (λ l h.
              sweep-All (λ p. before (not x) l.px p ≡ true) (taker o) o.qty (passive_side x b) h)
            apart,
      )

  swept-IsUncrossed : IsUncrossed (after_sweep b o swept)
  swept-IsUncrossed =
      let (own, others) = after_sweep-sides b o swept in
      Seen-IsUncrossed x (after_sweep b o swept) (own_side x b) swept.side own others swept-Seen

  -- Nothing of the sweep's side is within reach of a limit order that is left over and met no wall.
  out_of_reach :
      (ltb 0 swept.left && is_limit o.type && not swept.walled) ≡ true
      → Behind (not x) o.price swept.side
  unfolding swept Stops
  out_of_reach e =
      let (some_left, lim, no_wall) =
        three (ltb 0 swept.left) (is_limit o.type) (not swept.walled) e in
      clear swept.left swept.walled some_left no_wall
        (sweep-Stops (taker o) o.qty (passive_side x b) (limited o.type lim) (seen x b v).1)
    where
      three : (p q r : Bool) → (p && q && r) ≡ true → (p ≡ true) × (q ≡ true) × (r ≡ true)
      three true true true e = (refl, refl, refl)
      three true true false e = cc
      three true false true e = cc
      three true false false e = cc
      three false true true e = cc
      three false true false e = cc
      three false false true e = cc
      three false false false e = cc

      limited : (t : OrderType) → is_limit t ≡ true → not (is_market t) ≡ true
      limited limit e = refl
      limited market e = cc
      limited ioc e = refl
      limited fok e = refl
      limited (OrderType.unnamed k) e = refl

      no_left : (n : ℕ) → n ≡ 0 → ltb 0 n ≡ true → ⊥
      no_left n z p = ground arith

      clear :
          {P : Type 0} (n : ℕ) (w : Bool)
          → ltb 0 n ≡ true
          → not w ≡ true
          → (n ≡ 0) ⊎ (w ≡ true) ⊎ P
          → P
      clear n w p q (inl z) = absurd (no_left n z p)
      clear n true p q (inr (inl e)) = cc
      clear n false p q (inr (inl e)) = cc
      clear n w p q (inr (inr h)) = h

  booked-IsUncrossed :
      (entry : RefOrder) (n : ℕ)
      → Behind (not x) o.price swept.side
      → IsUncrossed
          (record (put_own x
            (push_back x o.price entry (own_side x (after_sweep b o swept)))
            (after_sweep b o swept)) { resting_count = n })
  booked-IsUncrossed entry n clear =
      let b' = after_sweep b o swept in
      let (own, others) = after_sweep-sides b o swept in
      let s = push_back x o.price entry (own_side x b') in
      let (own', others') = booked-sides x s b' n in
      let (sorted, other_sorted, apart) = swept-Seen in
      Seen-IsUncrossed x (record (put_own x s b') { resting_count = n })
        (push_back x o.price entry (own_side x b)) swept.side
        (own' ∙ ap (push_back x o.price entry) own) (others' ∙ others)
        (
          push_back-IsSorted x o.price entry (own_side x b) sorted,
          other_sorted,
          push_back-All (λ p. Behind (not x) p swept.side) x o.price entry (own_side x b) apart
              clear,
        )

  add_swept-IsUncrossed : (max_orders : ℕ) → IsUncrossed (add_swept max_orders b o).0
  unfolding add_swept swept
  add_swept-IsUncrossed max_orders =
      let b' = after_sweep b o swept in
      let entry : RefOrder = record { id = o.id; rem = swept.left; account = o.account_id } in
      elim (Bool-cases (ltb 0 swept.left && is_limit o.type && not swept.walled)) [
        | inr t ↦ rw t swept-IsUncrossed
        | inl t ↦ elim (Bool-cases (leb max_orders b'.resting_count)) [
          | inl u ↦ rw (t, u) swept-IsUncrossed
          | inr u ↦ rw (t, u) (booked-IsUncrossed entry (b'.resting_count + 1) (out_of_reach t))
        ]
      ]

-- On a reference book whose sides are sorted and where every bid is below every ask, `add` leaves both
-- sides sorted and every bid below every ask, also when a wall of the same account stops the order.
pub add-IsUncrossed :
    (max_orders : ℕ) (b : RefBook) (o : Order) → IsUncrossed b → IsUncrossed (add max_orders b o).0
unfolding add
add-IsUncrossed max_orders b o v =
    elim (Bool-cases
      (is_fok o.type && ltb (available (taker o) 0 (passive_side (is_buy o.side) b)) o.qty)) [
        | inl t ↦ rw t v
        | inr t ↦ rw t (add_swept-IsUncrossed b o v max_orders)
      ]
