-- ===== src/OrderBook/Liquidity/Refines.antt =====
-- `available_liquidity` on a well-formed side ends within its fuel, and tells what `RefBook::available`
-- tells: whether the order's quantity is there.
use mathlib.Core.Path.{subst}
use options_engine.Prelude.{
  ℕ, zero, suc, ◌+◌, ◌≤◌, ◌<◌, dec_lt, ◌≡◌, ◌≢◌, refl, ap, sym, ◌∙◌, inl, inr, Bool, true, false,
  not, Option, none, some, List, [], ◌∷◌, min, arith, ◌==◌, ltb, leb, Bool-cases, length,
  if◌then◌else◌,
}
use options_engine.Prelude.Words.{add64, add64_exact}
use options_engine.Types.{Price, Order, is_buy, is_market, uint32_max}
use options_engine.OrderBook.Levels.{Levels, null_idx}
use options_engine.OrderBook.Slots.{Slots, max_orders}
use options_engine.OrderBook.Slots.FreeList.{Chain}
use options_engine.OrderBook.State.{Book, side_of}
use options_engine.OrderBook.View.{order_at, orders, levels, Queues, IsSide}
use options_engine.OrderBook.Match.{out_of_reach, same_account}
use options_engine.OrderBook.Liquidity.{queue_liquidity, levels_liquidity, available_liquidity}
use options_engine.Reference.{
  RefOrder, RefLevel, Taker, taker, beyond, is_wall, available_queue, available,
}

-- A walk that comes to `total` shares, and the reference walk that comes to `shares`: both to the same
-- below `qty`, or both to `qty` at least.
pub record Agree (qty total shares : ℕ) : Type 0 where
  pub same : total < qty → shares ≡ total
  pub reached : qty ≤ total → qty ≤ shares

-- The reference walk of a queue counts up.
available_queue-le :
    (a total : ℕ) (q : List RefOrder) → total ≤ uint32_max → total ≤ (available_queue a total q).0
unfolding available_queue
available_queue-le a total [] small = omega arith
available_queue-le a total (o ∷ q) small = elim (Bool-cases (is_wall a o)) [
  | inl w ↦ rw (w, available_queue) (omega arith)
  | inr w ↦
      rw (w, available_queue)
        (omega (arith, available_queue-le a (min (total + o.rem) uint32_max) q (omega arith)))
]

available_queue-small :
    (a total : ℕ) (q : List RefOrder)
    → total ≤ uint32_max
    → (available_queue a total q).0 ≤ uint32_max
unfolding available_queue
available_queue-small a total [] small = small
available_queue-small a total (o ∷ q) small = elim (Bool-cases (is_wall a o)) [
  | inl w ↦ rw (w, available_queue) small
  | inr w ↦
      rw (w, available_queue)
        (available_queue-small a (min (total + o.rem) uint32_max) q (omega arith))
]

available-le :
    (t : Taker) (total : ℕ) (ls : List RefLevel) → total ≤ uint32_max → total ≤ available t total ls
unfolding available
available-le t total [] small = omega arith
available-le t total (l ∷ ls) small =
    let r = available_queue t.account total l.queue in
    let up = available_queue-le t.account total l.queue small in
    elim (Bool-cases (beyond t.is_buy t.limit l.px)) [
      | inl b ↦ rw (b, available) (omega arith)
      | inr b ↦ elim (Bool-cases r.1) [
        | inl s ↦ rw (b, s, available) up
        | inr s ↦
            rw (b, s, available)
              (omega (
                arith,
                up,
                available-le t r.0 ls (available_queue-small t.account total l.queue small),
              ))
      ]
    ]

-- The rounds of the walks as equations between shut calls.
queue_round :
    (f : ℕ) (o : Order) (p : Slots) (idx total : ℕ)
    → queue_liquidity (suc f) o p idx total ≡ (
        if idx == null_idx
        then some (false, total)
        else if same_account o p idx
        then some (true, total)
        else if leb o.qty_remaining (add64 total (p.qtys idx))
        then some (true, add64 total (p.qtys idx))
        else queue_liquidity f o p (p.nexts idx) (add64 total (p.qtys idx)))
unfolding queue_liquidity
queue_round f o p idx total = refl

queue_step :
    (a total : ℕ) (o : RefOrder) (q : List RefOrder)
    → available_queue a total (o ∷ q) ≡ (
        if is_wall a o then (total, true) else available_queue a (min (total + o.rem) uint32_max) q)
unfolding available_queue
queue_step a total o q = refl

abbrev next_level : ℕ → Order → Levels → Slots → ℕ → ℕ → Option (Bool × ℕ) → Option ℕ
next_level orders o s p i n none = none
next_level orders o s p i n (some (true, t)) = some t
next_level orders o s p i n (some (false, t)) = levels_liquidity orders o s p i n t

levels_round :
    (orders : ℕ) (o : Order) (s : Levels) (p : Slots) (i n total : ℕ)
    → levels_liquidity orders o s p i (suc n) total ≡ (
        if out_of_reach o (s.prices i)
        then some total
        else next_level orders o s p (i + 1) n (queue_liquidity orders o p (s.head_idxs i) total))
unfolding levels_liquidity
levels_round orders o s p i n total = refl

levels_step :
    (t : Taker) (total : ℕ) (l : RefLevel) (ls : List RefLevel)
    → let r = available_queue t.account total l.queue in
      available t total (l ∷ ls)
      ≡ (if beyond t.is_buy t.limit l.px then total else if r.1 then r.0 else available t r.0 ls)
unfolding available
levels_step t total l ls = refl

abbrev capped : Option ℕ → Option ℕ
capped none = none
capped (some total) = some (min total uint32_max)

whole :
    (b : Book) (o : Order)
    → let s = side_of (not (is_buy o.side)) b in
      available_liquidity b o ≡ capped (levels_liquidity (max_orders + 1) o s b.slots 0 s.count 0)
unfolding available_liquidity
whole b o = refl

-- The walk of a queue that ends in `(stop, total)`, and the reference's that ends in `r`.
record QueueAgree (qty : ℕ) (stop : Bool) (total : ℕ) (r : ℕ × Bool) : Type 0 where
  under : total < qty → r ≡ (total, stop)
  reached : qty ≤ total → (stop ≡ true) × (qty ≤ r.0)

ne-test : (a b : ℕ) → a ≢ b → (a == b) ≡ false
ne-test a b h = ground arith

self-test : (a b : ℕ) → a ≡ b → (a == b) ≡ true
self-test a b h = ground arith

module _ (o : Order) (p : Slots) (narrow : (x : ℕ) → p.qtys x ≤ uint32_max)
    (small : o.qty_remaining ≤ uint32_max) where
  abbrev QueueEnds : ℕ → ℕ → ℕ → List ℕ → Type 0
  QueueEnds f idx total q =
      (stop : Bool) × (t : ℕ) × (queue_liquidity f o p idx total ≡ some (stop, t))
      × QueueAgree o.qty_remaining stop t (available_queue o.account_id total (orders p q))

  wall-same : (x : ℕ) → is_wall o.account_id (order_at p x) ≡ same_account o p x
  unfolding same_account
  wall-same x = refl

  -- A round at the order in slot `x`.
  order-ends :
      (f : ℕ) (q : List ℕ) (x total : ℕ)
      → x ≢ null_idx
      → total < o.qty_remaining
      → ((total' : ℕ) → total' < o.qty_remaining → QueueEnds f (p.nexts x) total' q)
      → QueueEnds (suc f) x total (x ∷ q)
  order-ends f q x total real less go =
      let a = o.account_id in
      let sum : add64 total (p.qtys x) ≡ total + p.qtys x =
        add64_exact total (p.qtys x) (omega (arith, narrow x)) in
      let step = queue_step a total (order_at p x) (orders p q) in
      let at = ne-test x null_idx real in
      elim (Bool-cases (same_account o p x)) [
        | inl w ↦ (
          true,
          total,
          queue_round f o p x total ∙ rw (at, w),
          record { under = λ h. step ∙ rw (wall-same x, w); reached = λ h. absurd (omega arith) },
        )
        | inr w ↦
            let on : available_queue a total (orders p (x ∷ q))
                ≡ available_queue a (min (total + p.qtys x) uint32_max) (orders p q) =
              step ∙ rw (wall-same x, w) in
            elim (Bool-cases (leb o.qty_remaining (total + p.qtys x))) [
              | inl enough ↦ (
                true,
                total + p.qtys x,
                queue_round f o p x total ∙ rw (at, w, sum, enough),
                record {
                  under = λ h. absurd (over o.qty_remaining (total + p.qtys x) enough h);
                  reached = λ h. (
                    refl,
                    rw on (
                        omega (
                          arith,
                          small,
                          h,
                          available_queue-le a (min (total + p.qtys x) uint32_max) (orders p q)
                              (omega arith),
                        )),
                  );
                },
              )
              | inr short ↦
                  let less' = under_of o.qty_remaining (total + p.qtys x) short in
                  let (stop, t, ends, v) = go (total + p.qtys x) less' in
                  let same : available_queue a total (orders p (x ∷ q))
                      ≡ available_queue a (total + p.qtys x) (orders p q) =
                    on ∙ ap (λ n. available_queue a n (orders p q)) (omega (arith, small, less')) in
                  (
                    stop,
                    t,
                    queue_round f o p x total ∙ rw (at, w, sum, short) ends,
                    subst (QueueAgree o.qty_remaining stop t) (sym same) v,
                  )
            ]
      ]
    where
      over : (m n : ℕ) → leb m n ≡ true → n < m → ⊥
      over m n e h = ground arith

      under_of : (m n : ℕ) → leb m n ≡ false → n < m
      under_of m n e = ground arith

  queue-ends :
      (f : ℕ) (q : List ℕ) (idx total : ℕ)
      → Chain p.nexts idx q
      → length q < f
      → total < o.qty_remaining
      → QueueEnds f idx total q
  unfolding available_queue
  queue-ends zero q idx total c fuel less = absurd (omega arith)
  queue-ends (suc f) [] idx total c fuel less = (
    false,
    total,
    queue_round f o p idx total ∙ rw (self-test idx null_idx c),
    record { under = λ h. refl; reached = λ h. absurd (omega arith) },
  )
  queue-ends (suc f) (x ∷ q) idx total (e, real, c) fuel less =
      subst (λ y. QueueEnds (suc f) y total (x ∷ q)) (sym e)
        (order-ends f q x total real less
          (λ total' l. queue-ends f q (p.nexts x) total' c (omega arith) l))

  module _ (limited : is_market o.type ≡ false) where
    reach-same : (px : Price) → out_of_reach o px ≡ beyond (is_buy o.side) o.price px
    unfolding out_of_reach
    reach-same px = elim (Bool-cases (is_buy o.side)) [
      | inl s ↦ rw (limited, s)
      | inr s ↦ rw (limited, s)
    ]

    abbrev LevelsEnd : Levels → ℕ → ℕ → List (List ℕ) → Type 0
    LevelsEnd s i total qs =
        (t : ℕ) × (levels_liquidity (max_orders + 1) o s p i (length qs) total ≡ some t)
        × Agree o.qty_remaining t (available (taker o) total (levels s p i qs))

    -- A round at a level in reach whose walk ended in `(stop, t)`.
    level-ends :
        (s : Levels) (i total : ℕ) (q : List ℕ) (qs : List (List ℕ)) (stop : Bool) (t : ℕ)
        → out_of_reach o (s.prices i) ≡ false
        → total < o.qty_remaining
        → queue_liquidity (max_orders + 1) o p (s.head_idxs i) total ≡ some (stop, t)
        → QueueAgree o.qty_remaining stop t (available_queue o.account_id total (orders p q))
        → (t < o.qty_remaining → LevelsEnd s (i + 1) t qs)
        → LevelsEnd s i total (q ∷ qs)
    level-ends s i total q qs true t near less ends v go =
        let r = available_queue o.account_id total (orders p q) in
        let step =
          levels_step (taker o) total (record { px = s.prices i; queue = orders p q })
            (levels s p (i + 1) qs) in
        let near' : beyond (is_buy o.side) o.price (s.prices i) ≡ false =
          sym (reach-same (s.prices i)) ∙ near in
        (
          t,
          levels_round (max_orders + 1) o s p i (length qs) total ∙ rw (near, ends),
          record {
            same = λ h. step ∙ rw (near', v.under h);
            reached = λ h.
                rw (step, near')
                  (at_least r.1 r.0 (available (taker o) r.0 (levels s p (i + 1) qs))
                    ((v.reached h).1)
                    (available-le (taker o) r.0 (levels s p (i + 1) qs) (
                      available_queue-small o.account_id total (orders p q)
                        (omega (arith, small, less)))));
          },
        )
      where
        at_least : {n : ℕ} (c : Bool) (x y : ℕ) → n ≤ x → x ≤ y → n ≤ (if c then x else y)
        at_least true x y h k = h
        at_least false x y h k = omega arith
    level-ends s i total q qs false t near less ends v go =
        let step =
          levels_step (taker o) total (record { px = s.prices i; queue = orders p q })
            (levels s p (i + 1) qs) in
        let near' : beyond (is_buy o.side) o.price (s.prices i) ≡ false =
          sym (reach-same (s.prices i)) ∙ near in
        elim (dec_lt t o.qty_remaining) [
          | no over ↦ absurd (false-ne ((v.reached (omega arith)).0))
          | yes h ↦
              let (t', rest, u) = go h in
              (
                t',
                levels_round (max_orders + 1) o s p i (length qs) total ∙ rw (near, ends) rest,
                subst (Agree o.qty_remaining t') (sym (step ∙ rw (near', v.under h))) u,
              )
        ]
      where
        false-ne : false ≡ true → ⊥
        false-ne e = cc

    -- A round at any level.
    round :
        (s : Levels) (q : List ℕ) (qs : List (List ℕ)) (i total : ℕ)
        → Queues s p.nexts i (q ∷ qs)
        → total < o.qty_remaining
        → ((t : ℕ) → t < o.qty_remaining → LevelsEnd s (i + 1) t qs)
        → LevelsEnd s i total (q ∷ qs)
    round s q qs i total v less go = elim (Bool-cases (out_of_reach o (s.prices i))) [
      | inl far ↦
          let step =
            levels_step (taker o) total (record { px = s.prices i; queue = orders p q })
              (levels s p (i + 1) qs) in
          (
            total,
            levels_round (max_orders + 1) o s p i (length qs) total ∙ rw far,
            record {
              same = λ h. step ∙ rw (sym (reach-same (s.prices i)) ∙ far);
              reached = λ h. absurd (omega arith);
            },
          )
      | inr near ↦
          let (stop, t, ends, u) =
            queue-ends (max_orders + 1) q (s.head_idxs i) total v.0.chain (omega (arith, v.2))
              less in
          level-ends s i total q qs stop t near less ends u (go t)
    ]

    levels-end :
        (s : Levels) (qs : List (List ℕ)) (i total : ℕ)
        → Queues s p.nexts i qs
        → total < o.qty_remaining
        → LevelsEnd s i total qs
    unfolding levels_liquidity available
    levels-end s [] i total v less =
        (total, refl, record { same = λ h. refl; reached = λ h. absurd (omega arith) })
    levels-end s (q ∷ qs) i total v less =
        round s q qs i total v less (λ t h. levels-end s qs (i + 1) t v.4 h)

-- On a well-formed side, for an order that is not a market order, of a 32-bit quantity above 0, the
-- fill-or-kill check ends within its fuel, and it finds the quantity short exactly when
-- `RefBook::available` does on the same levels.
pub available_liquidity-available :
    (b : Book) (o : Order) (qs : List (List ℕ))
    → is_market o.type ≡ false
    → 0 < o.qty_remaining
    → o.qty_remaining ≤ uint32_max
    → ((x : ℕ) → b.slots.qtys x ≤ uint32_max)
    → IsSide (side_of (not (is_buy o.side)) b) b.slots qs
    → (liquid : ℕ) × (available_liquidity b o ≡ some liquid)
      × (ltb liquid o.qty_remaining
          ≡ ltb
              (available (taker o) 0 (levels (side_of (not (is_buy o.side)) b) b.slots 0 qs))
              o.qty_remaining)
available_liquidity-available b o qs limited pos small narrow v =
    let s = side_of (not (is_buy o.side)) b in
    let (t, ends, u) = levels-end o b.slots narrow small limited s qs 0 0 v.queues pos in
    (
      min t uint32_max,
      whole b o ∙ rw (v.count, ends),
      shared t (available (taker o) 0 (levels s b.slots 0 qs)) o.qty_remaining small u.same
          u.reached,
    )
  where
    shared :
        (t a n : ℕ)
        → n ≤ uint32_max
        → (t < n → a ≡ t)
        → (n ≤ t → n ≤ a)
        → ltb (min t uint32_max) n ≡ ltb a n
    shared t a n small same reached = elim (dec_lt t n) [
      | yes h ↦ (let e = same h in ground arith)
      | no h ↦ (let e = reached (omega arith) in ground arith)
    ]
