-- ===== src/Reference/Uncrossed/Sweep.antt =====
-- What a sweep does to a sorted side and to its prices, and where it stops.
use options_engine.Prelude.{
  ℕ, ◌-◌, ◌≤◌, ◌≡◌, refl, ◌⊎◌, Bool, true, false, ◌&&◌, not, List, [], ◌∷◌, arith, min, ◌==◌,
  Bool-cases, inl, inr,
}
use options_engine.Types.{Price, Qty}
use options_engine.OrderBook.Match.Reports.{All}
use options_engine.Reference.{RefOrder, RefLevel, Taker, Swept, sweep_queue, sweep, is_wall, beyond}
use options_engine.Reference.Sweep.{after_level}
use options_engine.Reference.AllOrNone.{sweep-left}
use options_engine.Reference.Uncrossed.{Behind, IsSorted, Behind_trans}

-- What holds of each price of a sorted side, and its order, holds after a round of the sweep.
after_level-All :
    (P : Price → Type 0) (l : RefLevel) (ls : List RefLevel) (w : Swept (List RefOrder))
    (rest : Swept (List RefLevel))
    → All (λ l. P l.px) (l ∷ ls)
    → All (λ l. P l.px) rest.side
    → All (λ l. P l.px) (after_level l ls w rest).side
after_level-All P l ls w rest h k = at w.side
  where
    at :
        (side : List RefOrder)
        → All (λ l. P l.px) (after_level l ls (record w { side = side }) rest).side
    at [] = k
    at (o ∷ q) = h

after_level-IsSorted :
    (desc : Bool) (l : RefLevel) (ls : List RefLevel) (w : Swept (List RefOrder))
    (rest : Swept (List RefLevel))
    → IsSorted desc (l ∷ ls)
    → IsSorted desc rest.side
    → IsSorted desc (after_level l ls w rest).side
after_level-IsSorted desc l ls w rest h k = at w.side
  where
    at :
        (side : List RefOrder)
        → IsSorted desc (after_level l ls (record w { side = side }) rest).side
    at [] = k
    at (o ∷ q) = h

pub sweep-All :
    (P : Price → Type 0) (t : Taker) (qty : Qty) (ls : List RefLevel)
    → All (λ l. P l.px) ls
    → All (λ l. P l.px) (sweep t qty ls).side
unfolding sweep
sweep-All P t qty [] h = h
sweep-All P t qty (l ∷ ls) h =
    let w = sweep_queue t l.px qty l.queue in
    elim (Bool-cases (qty == 0)) [
      | inl a ↦ rw a h
      | inr a ↦ elim (Bool-cases (t.limited && beyond t.is_buy t.limit l.px)) [
        | inl b ↦ rw (a, b) h
        | inr b ↦
            rw (a, b) (after_level-All P l ls w (sweep t w.left ls) h (sweep-All P t w.left ls h.1))
      ]
    ]

pub sweep-IsSorted :
    (desc : Bool) (t : Taker) (qty : Qty) (ls : List RefLevel)
    → IsSorted desc ls
    → IsSorted desc (sweep t qty ls).side
unfolding sweep
sweep-IsSorted desc t qty [] h = h
sweep-IsSorted desc t qty (l ∷ ls) h =
    let w = sweep_queue t l.px qty l.queue in
    elim (Bool-cases (qty == 0)) [
      | inl a ↦ rw a h
      | inr a ↦ elim (Bool-cases (t.limited && beyond t.is_buy t.limit l.px)) [
        | inl b ↦ rw (a, b) h
        | inr b ↦
            rw (a, b)
              (after_level-IsSorted desc l ls w (sweep t w.left ls) h
                (sweep-IsSorted desc t w.left ls h.1))
      ]
    ]

-- The inner loop stops with nothing left, the queue used up, or at a wall.
sweep_queue-stops :
    (t : Taker) (px : Price) (qty : Qty) (q : List RefOrder)
    → let w = sweep_queue t px qty q in (w.left ≡ 0) ⊎ (w.side ≡ []) ⊎ (w.walled ≡ true)
unfolding sweep_queue
sweep_queue-stops t px qty [] = inr (inl refl)
sweep_queue-stops t px qty (o ∷ q) = elim (Bool-cases (qty == 0)) [
  | inl a ↦ rw a (inl (test_zero qty a))
  | inr a ↦ elim (Bool-cases (is_wall t.account o)) [
    | inl b ↦ rw (a, b) (inr (inr refl))
    | inr b ↦ elim (Bool-cases (o.rem == min qty o.rem)) [
      | inl c ↦ rw (a, b, c) (sweep_queue-stops t px (qty - min qty o.rem) q)
      | inr c ↦ rw (a, b, c) (inl (used qty o.rem c))
    ]
  ]
]
  where
    test_zero : (n : ℕ) → (n == 0) ≡ true → n ≡ 0
    test_zero n p = ground arith

    used : (n r : ℕ) → (r == min n r) ≡ false → n - min n r ≡ 0
    used n r p = ground arith

-- The sweep stops with nothing left, at a wall, or with every price beyond the limit.
unfoldable pub Stops : Taker → Swept (List RefLevel) → Type 0
Stops t w = (w.left ≡ 0) ⊎ (w.walled ≡ true) ⊎ Behind (not t.is_buy) t.limit w.side

after_level-Stops :
    (t : Taker) (l : RefLevel) (ls : List RefLevel) (w : Swept (List RefOrder))
    (rest : Swept (List RefLevel))
    → (w.left ≡ 0) ⊎ (w.side ≡ []) ⊎ (w.walled ≡ true)
    → (w.left ≡ 0 → rest.left ≡ 0)
    → Stops t rest
    → Stops t (after_level l ls w rest)
unfolding Stops
after_level-Stops t l ls w rest (inl z) still k = at w.side
  where
    at : (side : List RefOrder) → Stops t (after_level l ls (record w { side = side }) rest)
    at [] = inl (still z)
    at (o ∷ q) = inl z
after_level-Stops t l ls w rest (inr (inl e)) still k = at w.side e
  where
    at :
        (side : List RefOrder)
        → side ≡ []
        → Stops t (after_level l ls (record w { side = side }) rest)
    at [] e = k
    at (o ∷ q) e = cc
after_level-Stops t l ls w rest (inr (inr e)) still k = at w.side
  where
    at : (side : List RefOrder) → Stops t (after_level l ls (record w { side = side }) rest)
    at [] = k
    at (o ∷ q) = inr (inl e)

pub sweep-Stops :
    (t : Taker) (qty : Qty) (ls : List RefLevel)
    → t.limited ≡ true
    → IsSorted (not t.is_buy) ls
    → Stops t (sweep t qty ls)
unfolding sweep Stops
sweep-Stops t qty [] lim h = inr (inr tt)
sweep-Stops t qty (l ∷ ls) lim h =
    let w = sweep_queue t l.px qty l.queue in
    elim (Bool-cases (qty == 0)) [
      | inl a ↦ rw a (inl (test_zero qty a))
      | inr a ↦ elim (Bool-cases (t.limited && beyond t.is_buy t.limit l.px)) [
        | inl b ↦
            let first = and_right t.limited (beyond t.is_buy t.limit l.px) b in
            rw (a, b) (inr (inr (first, Behind_trans (not t.is_buy) t.limit l.px ls first h.0)))
        | inr b ↦
            rw (a, b)
              (after_level-Stops t l ls w (sweep t w.left ls) (sweep_queue-stops t l.px qty l.queue)
                (λ z. none_left w.left (sweep t w.left ls).left (sweep-left t w.left ls) z)
                (sweep-Stops t w.left ls lim h.1))
      ]
    ]
  where
    test_zero : (n : ℕ) → (n == 0) ≡ true → n ≡ 0
    test_zero n p = ground arith

    and_right : (x y : Bool) → (x && y) ≡ true → y ≡ true
    and_right true y e = e
    and_right false y e = cc

    none_left : (a b : ℕ) → b ≤ a → a ≡ 0 → b ≡ 0
    none_left a b h e = omega arith
