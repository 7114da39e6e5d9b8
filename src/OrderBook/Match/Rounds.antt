-- ===== src/OrderBook/Match/Rounds.antt =====
-- What a sweep of the whole side leaves, and the rounds of the reference loop.
use options_engine.Prelude.{
  ℕ, ◌-◌, ◌≡◌, ◌≢◌, refl, sym, inl, inr, true, false, List, [], ◌∷◌, ◌++◌, map, min, arith, ◌==◌,
  Bool-cases, ◌&&◌, append_nil,
}
use options_engine.Types.{Price, Order, is_buy, is_market}
use options_engine.OrderBook.View.{levels, IsSide, IsIndex}
use options_engine.OrderBook.Match.{out_of_reach}
use options_engine.OrderBook.Match.Steps.{Work}
use options_engine.OrderBook.Match.Level.{fill_of}
use options_engine.Reference.{
  RefOrder, RefLevel, Taker, taker, beyond, is_wall, Swept, sweep_queue, sweep,
}
use options_engine.Reference.Sweep.{after_level}

-- `w'` is `w` after the sweep that leaves `r`; its side has the queues `qs'`.
pub record IsMatched (w w' : Work) (r : Swept (List RefLevel)) (qs' : List (List ℕ)) : Type 0 where
  pub left : w'.left ≡ r.left
  pub side : IsSide w'.side w'.slots qs'
  pub view : levels w'.side w'.slots 0 qs' ≡ r.side
  pub fills : map fill_of w'.reports ≡ map fill_of w.reports ++ r.fills
  pub index : IsIndex w'.index

pub idle :
    (w : Work) (qs : List (List ℕ))
    → IsSide w.side w.slots qs
    → IsIndex w.index
    → IsMatched w w
        (record {
          side = levels w.side w.slots 0 qs;
          left = w.left;
          fills = [];
          walled = false;
          popped = 0;
        })
        qs
idle w qs v t = record {
  left = refl;
  side = v;
  view = refl;
  fills = sym (append_nil (map fill_of w.reports));
  index = t;
}

-- The rounds of the reference loop.
module _ (t : Taker) (qty : ℕ) (l : RefLevel) (ls : List RefLevel) where
  pub sweep_done :
      (qty == 0) ≡ true
      → sweep t qty (l ∷ ls)
        ≡ record { side = l ∷ ls; left = qty; fills = []; walled = false; popped = 0 }
  unfolding sweep
  sweep_done a = rw (a, sweep)

  pub sweep_far :
      (qty == 0) ≡ false
      → (t.limited && beyond t.is_buy t.limit l.px) ≡ true
      → sweep t qty (l ∷ ls)
        ≡ record { side = l ∷ ls; left = qty; fills = []; walled = false; popped = 0 }
  unfolding sweep
  sweep_far a b = rw (a, b, sweep)

  pub sweep_on :
      (qty == 0) ≡ false
      → (t.limited && beyond t.is_buy t.limit l.px) ≡ false
      → let r = sweep_queue t l.px qty l.queue in
        sweep t qty (l ∷ ls) ≡ after_level l ls r (sweep t r.left ls)
  unfolding sweep
  sweep_on a b = rw (a, b, sweep)

pub reach-same :
    (o : Order) (px : Price)
    → ((taker o).limited && beyond (taker o).is_buy o.price px) ≡ out_of_reach o px
unfolding out_of_reach
reach-same o px = elim (Bool-cases (is_market o.type)) [
  | inl m ↦ rw m
  | inr m ↦ elim (Bool-cases (is_buy o.side)) [ inl s ↦ rw (m, s) | inr s ↦ rw (m, s) ]
]

-- A queue used up meets no wall; one that is not, and meets none, takes the whole quantity.
pub record Stops (r : Swept (List RefOrder)) : Type 0 where
  pub empty : r.side ≡ [] → r.walled ≡ false
  pub taken : r.side ≢ [] → r.walled ≡ false → r.left ≡ 0

pub sweep_queue-Stops :
    (t : Taker) (px : Price) (qty : ℕ) (q : List RefOrder) → Stops (sweep_queue t px qty q)
unfolding sweep_queue
sweep_queue-Stops t px qty [] = record { empty = λ e. refl; taken = λ ne e. absurd (ne refl) }
sweep_queue-Stops t px qty (o ∷ q) =
    let f = min qty o.rem in
    let rest = sweep_queue-Stops t px (qty - f) q in
    elim (Bool-cases (qty == 0)) [
      | inl a ↦ rw (a, sweep_queue) (record { empty = λ e. refl; taken = λ ne e. zero_of qty a })
      | inr a ↦ elim (Bool-cases (is_wall t.account o)) [
        | inl b ↦ rw (a, b, sweep_queue) (record { empty = λ e. no_cons e; taken = λ ne e. cc })
        | inr b ↦ elim (Bool-cases (o.rem == f)) [
          | inl c ↦ rw (a, b, c, sweep_queue) (record { empty = rest.empty; taken = rest.taken })
          | inr c ↦
              rw (a, b, c, sweep_queue)
                (record { empty = λ e. refl; taken = λ ne e. part qty o.rem c })
        ]
      ]
    ]
  where
    zero_of : (n : ℕ) → (n == 0) ≡ true → n ≡ 0
    zero_of n e = ground arith

    part : (n r : ℕ) → (r == min n r) ≡ false → n - min n r ≡ 0
    part n r e = ground arith

    no_cons : {A : Type 0} {B : Type 0} {x : A} {xs : List A} → x ∷ xs ≡ [] → B
    no_cons e = cc
