-- ===== src/OrderBook/Match/Refines.antt =====
-- `try_match` on a well-formed side ends within its fuel, with what `RefBook::sweep` leaves of it.
use mathlib.Core.Path.{subst}
use options_engine.Prelude.{
  ℕ, zero, suc, ◌+◌, ◌<◌, ◌≡◌, ◌≢◌, ap, sym, ◌∙◌, inl, inr, Bool, true, false, not, some, List, [],
  ◌∷◌, ◌++◌, map, arith, ◌==◌, Bool-cases, length, append_assoc, if◌then◌else◌,
}
use options_engine.Types.{Order, is_buy}
use options_engine.OrderBook.Levels.{remove_level, max_levels}
use options_engine.OrderBook.Levels.Sorted.{remove_level-IsRemoved}
use options_engine.OrderBook.Slots.{max_orders}
use options_engine.OrderBook.State.{Book, side_of}
use options_engine.OrderBook.View.{
  order_at, orders, levels, AllApart-sub, Queues, IsSide, IsIndex, SameRows, rows-SameRows,
  levels-same, Queues-same,
}
use options_engine.OrderBook.Match.{Matching, out_of_reach, match_loop, try_match, drop_exhausted}
use options_engine.OrderBook.Match.Steps.{
  Work, at, slots-at, drop_exhausted-at, match_loop-done, match_loop-empty, match_loop-far,
  match_loop-on,
}
use options_engine.OrderBook.Match.Level.{fill_of, IsSwept}
use options_engine.OrderBook.Match.Level.Sweep.{sweep_level-IsSwept}
use options_engine.Reference.{RefOrder, RefLevel, taker, Swept, sweep_queue, sweep}
use options_engine.Reference.Sweep.{after_level}
use options_engine.OrderBook.Match.Rounds.{
  IsMatched, idle, sweep_done, sweep_far, sweep_on, reach-same, Stops, sweep_queue-Stops,
}

ne-test : (a b : ℕ) → a ≢ b → (a == b) ≡ false
ne-test a b h = ground arith

self-test : (a b : ℕ) → a ≡ b → (a == b) ≡ true
self-test a b h = ground arith

-- The first level's queue goes from `q` to `x ∷ q'`: the other levels are as they were.
partly-IsSide :
    (w w' : Work) (q : List ℕ) (qs : List (List ℕ)) (r : Swept (List RefOrder)) (x : ℕ)
    (q' : List ℕ)
    → IsSide w.side w.slots (q ∷ qs)
    → IsSwept q w w' r (x ∷ q')
    → IsSide w'.side w'.slots ((x ∷ q') ∷ qs)
partly-IsSide w w' q qs r x q' v k =
    let (_, _, short, apart, rest) = v.queues in
    let rows =
      rows-SameRows w.side w'.side 1 1 (length qs)
        (λ a c lo hi e. (let z : c ≡ a = omega arith in rw z (k.rows a (omega arith)))) in
    record {
      count = k.count ∙ v.count;
      small = v.small;
      queues = (
        k.queue,
        (λ e. absurd (cons-ne e)),
        omega (arith, k.short),
        AllApart-sub qs q (x ∷ q') k.sub apart,
        subst (λ n. Queues w'.side n 1 qs) (sym k.nexts)
            (Queues-same w.side w'.side w.slots.nexts 1 1 qs rows rest),
      );
    }
  where
    cons-ne : {y : ℕ} {ys : List ℕ} → y ∷ ys ≡ [] → ⊥
    cons-ne e = cc

partly-levels :
    (w w' : Work) (q : List ℕ) (qs : List (List ℕ)) (r : Swept (List RefOrder)) (x : ℕ)
    (q' : List ℕ)
    → IsSide w.side w.slots (q ∷ qs)
    → IsSwept q w w' r (x ∷ q')
    → levels w'.side w'.slots 1 qs ≡ levels w.side w.slots 1 qs
partly-levels w w' q qs r x q' v k =
    let (_, _, short, apart, rest) = v.queues in
    levels-same w.side w'.side w.slots w'.slots 1 1 qs q
      (rows-SameRows w.side w'.side 1 1 (length qs)
        (λ a c lo hi e. (let z : c ≡ a = omega arith in rw z (k.rows a (omega arith)))))
      k.outside apart

-- The first level's queue is used up: without its level, the others move up.
dropped-rows :
    (w w' : Work) (q : List ℕ) (qs : List (List ℕ)) (r : Swept (List RefOrder))
    → IsSide w.side w.slots (q ∷ qs)
    → IsSwept q w w' r []
    → SameRows w.side (remove_level w'.side 0) 1 0 (length qs)
dropped-rows w w' q qs r v k =
    let gone = remove_level-IsRemoved w'.side 0 (omega (arith, k.count, v.count)) in
    rows-SameRows w.side (remove_level w'.side 0) 1 0 (length qs) (λ a c lo hi e.
      (let z : a ≡ c + 1 = omega arith in
        gone.high c (omega arith) (omega (arith, k.count, v.count))
        ∙ rw z (k.rows (c + 1) (omega arith))))

dropped-IsSide :
    (w w' : Work) (q : List ℕ) (qs : List (List ℕ)) (r : Swept (List RefOrder))
    → IsSide w.side w.slots (q ∷ qs)
    → IsSwept q w w' r []
    → IsSide (remove_level w'.side 0) w'.slots qs
dropped-IsSide w w' q qs r v k =
    let (_, _, short, apart, rest) = v.queues in
    let gone = remove_level-IsRemoved w'.side 0 (omega (arith, k.count, v.count)) in
    record {
      count = omega (arith, gone.count, k.count, v.count);
      small = omega (arith, v.small);
      queues =
          subst (λ n. Queues (remove_level w'.side 0) n 0 qs) (sym k.nexts)
            (Queues-same w.side (remove_level w'.side 0) w.slots.nexts 1 0 qs
              (dropped-rows w w' q qs r v k) rest);
    }

dropped-levels :
    (w w' : Work) (q : List ℕ) (qs : List (List ℕ)) (r : Swept (List RefOrder))
    → IsSide w.side w.slots (q ∷ qs)
    → IsSwept q w w' r []
    → levels (remove_level w'.side 0) w'.slots 0 qs ≡ levels w.side w.slots 1 qs
dropped-levels w w' q qs r v k =
    let (_, _, short, apart, rest) = v.queues in
    levels-same w.side (remove_level w'.side 0) w.slots w'.slots 1 0 qs q
      (dropped-rows w w' q qs r v k) k.outside apart

if_false {ℓ} : {A : Type ℓ} (c : Bool) (x y : A) → c ≡ false → (if c then x else y) ≡ y
if_false c x y e = rw e

if_true {ℓ} : {A : Type ℓ} (c : Bool) (x y : A) → c ≡ true → (if c then x else y) ≡ x
if_true c x y e = rw e

module _ (l : RefLevel) (ls : List RefLevel) (r : Swept (List RefOrder))
    (rest : Swept (List RefLevel)) where
  after-empty :
      r.side ≡ []
      → after_level l ls r rest
        ≡ record rest { fills = r.fills ++ rest.fills; popped = r.popped + rest.popped }
  after-empty e = rw e

  after-partly :
      (x : RefOrder) (q : List RefOrder)
      → r.side ≡ x ∷ q
      → after_level l ls r rest ≡ record {
        side = record { px = l.px; queue = x ∷ q } ∷ ls;
        left = r.left;
        fills = r.fills;
        walled = r.walled;
        popped = r.popped;
      }
  after-partly x q e = rw e

module _ (b : Book) (o : Order) (cb : b.match_cb ≡ true) where
  -- The loop on `w` ends as the reference loop that ends in `r`.
  abbrev Runs : ℕ → Work → Swept (List RefLevel) → Type 0
  Runs f w r =
      (w' : Work) × (qs' : List (List ℕ)) × (match_loop (max_orders + 1) f (at b o w)
        ≡ some (at b o w', r.walled))
      × IsMatched w w' r qs'

  -- The first level is used up: its row goes, and the loop goes on with the rest.
  run_dropped :
      (f : ℕ) (w w' : Work) (q : List ℕ) (qs : List (List ℕ)) (r : Swept (List RefOrder))
      → IsSide w.side w.slots (q ∷ qs)
      → IsSwept q w w' r []
      → r.walled ≡ false
      → match_loop (max_orders + 1) (suc f) (at b o w) ≡ (
          if r.walled
          then some (at b o w', true)
          else match_loop (max_orders + 1) f (drop_exhausted (at b o w')))
      → ((w2 : Work)
          → IsSide w2.side w2.slots qs
          → IsIndex w2.index
          → Runs f w2 (sweep (taker o) w2.left (levels w2.side w2.slots 0 qs)))
      → Runs (suc f) w (
          after_level
            (record { px = w.side.prices 0; queue = orders w.slots q })
            (levels w.side w.slots 1 qs)
            r
            (sweep (taker o) r.left (levels w.side w.slots 1 qs)))
  run_dropped f w w' q qs r v k open_ on go =
      let w2 : Work = record w' { side = remove_level w'.side 0 } in
      let same : levels w2.side w2.slots 0 qs ≡ levels w.side w.slots 1 qs =
        dropped-levels w w' q qs r v k in
      let rest0 : Runs f w2 (sweep (taker o) w2.left (levels w2.side w2.slots 0 qs)) =
        go w2 (dropped-IsSide w w' q qs r v k) k.index in
      let (w3, qs', ends, m) : Runs f w2 (sweep (taker o) r.left (levels w.side w.slots 1 qs)) =
        subst (λ x. Runs f w2 (sweep (taker o) x (levels w.side w.slots 1 qs))) k.left
          (subst (λ x. Runs f w2 (sweep (taker o) w2.left x)) same rest0) in
      let more = (sweep (taker o) r.left (levels w.side w.slots 1 qs)).fills in
      let dropped : drop_exhausted (at b o w') ≡ at b o w2 =
        drop_exhausted-at b o w' ∙ rw (self-test (w'.side.order_counts 0) 0 k.queue.counted) in
      subst (Runs (suc f) w)
        (sym (
          after-empty (record { px = w.side.prices 0; queue = orders w.slots q })
            (levels w.side w.slots 1 qs) r (sweep (taker o) r.left (levels w.side w.slots 1 qs))
            (sym k.view)))
        (
          w3,
          qs',
          on ∙ if_false r.walled _ _ open_ ∙ ap (match_loop (max_orders + 1) f) dropped ∙ ends,
          record {
            left = m.left;
            side = m.side;
            view = m.view;
            fills =
                m.fills
                ∙ ap (λ x. x ++ more) k.fills
                ∙ append_assoc (map fill_of w.reports) r.fills more;
            index = m.index;
          },
        )

  -- The first level is not used up: the loop stops, at a wall or with nothing left.
  run_partly :
      (f : ℕ) (w w' : Work) (q : List ℕ) (qs : List (List ℕ)) (r : Swept (List RefOrder)) (x : ℕ)
      (q' : List ℕ)
      → IsSide w.side w.slots (q ∷ qs)
      → IsSwept q w w' r (x ∷ q')
      → (r.walled ≡ false → r.left ≡ 0)
      → match_loop (max_orders + 1) (suc (suc f)) (at b o w) ≡ (
          if r.walled
          then some (at b o w', true)
          else match_loop (max_orders + 1) (suc f) (drop_exhausted (at b o w')))
      → Runs (suc (suc f)) w (
          after_level
            (record { px = w.side.prices 0; queue = orders w.slots q })
            (levels w.side w.slots 1 qs)
            r
            (sweep (taker o) r.left (levels w.side w.slots 1 qs)))
  run_partly f w w' q qs r x q' v k stop on =
      let here : RefLevel = record { px = w.side.prices 0; queue = orders w.slots q } in
      let ls = levels w.side w.slots 1 qs in
      let dropped : drop_exhausted (at b o w') ≡ at b o w' =
        drop_exhausted-at b o w'
        ∙ rw (
            ne-test (w'.side.order_counts 0) 0 (λ e. absurd (omega (arith, e, k.queue.counted)))) in
      subst (Runs (suc (suc f)) w)
        (sym (
          after-partly here ls r (sweep (taker o) r.left ls) (order_at w'.slots x)
            (orders w'.slots q') (sym k.view)))
        (
          w',
          (x ∷ q') ∷ qs,
          on ∙ elim (Bool-cases r.walled) [
            | inl t ↦ if_true r.walled _ _ t ∙ ap (λ c. some (at b o w', c)) (sym t)
            | inr t ↦
                if_false r.walled _ _ t
                ∙ ap (match_loop (max_orders + 1) (suc f)) dropped
                ∙ match_loop-done b o (max_orders + 1) f w' (self-test w'.left 0 (k.left ∙ stop t))
                ∙ ap (λ c. some (at b o w', c)) (sym t)
          ],
          record {
            left = k.left;
            side = partly-IsSide w w' q qs r x q' v k;
            view = rw (k.price, partly-levels w w' q qs r x q' v k);
            fills = k.fills;
            index = k.index;
          },
        )

  -- A round of the outer loop on a side that has a level.
  after_sweep :
      (f : ℕ) (w w' : Work) (q : List ℕ) (qs : List (List ℕ)) (r : Swept (List RefOrder))
      (q' : List ℕ)
      → IsSide w.side w.slots (q ∷ qs)
      → IsSwept q w w' r q'
      → Stops r
      → match_loop (max_orders + 1) (suc (suc f)) (at b o w) ≡ (
          if r.walled
          then some (at b o w', true)
          else match_loop (max_orders + 1) (suc f) (drop_exhausted (at b o w')))
      → ((w2 : Work)
          → IsSide w2.side w2.slots qs
          → IsIndex w2.index
          → Runs (suc f) w2 (sweep (taker o) w2.left (levels w2.side w2.slots 0 qs)))
      → Runs (suc (suc f)) w (
          after_level
            (record { px = w.side.prices 0; queue = orders w.slots q })
            (levels w.side w.slots 1 qs)
            r
            (sweep (taker o) r.left (levels w.side w.slots 1 qs)))
  after_sweep f w w' q qs r [] v k stops on go =
      run_dropped (suc f) w w' q qs r v k (stops.empty (sym k.view)) on go
  after_sweep f w w' q qs r (x ∷ q') v k stops on go =
      run_partly f w w' q qs r x q' v k (stops.taken (λ e. absurd (cons-ne (k.view ∙ e)))) on
    where
      cons-ne : {y : RefOrder} {ys : List RefOrder} → y ∷ ys ≡ [] → ⊥
      cons-ne e = cc

  round :
      (f : ℕ) (qs : List (List ℕ)) (w : Work) (q : List ℕ)
      → IsSide w.side w.slots (q ∷ qs)
      → IsIndex w.index
      → ((w2 : Work)
          → IsSide w2.side w2.slots qs
          → IsIndex w2.index
          → Runs (suc f) w2 (sweep (taker o) w2.left (levels w2.side w2.slots 0 qs)))
      → Runs (suc (suc f)) w (sweep (taker o) w.left (levels w.side w.slots 0 (q ∷ qs)))
  round f qs w q v t go =
      let px = w.side.prices 0 in
      let here : RefLevel = record { px = px; queue = orders w.slots q } in
      let ls = levels w.side w.slots 1 qs in
      let filled = ne-test w.side.count 0 (λ e. absurd (omega (arith, e, v.count))) in
      elim (Bool-cases (w.left == 0)) [
        | inl z ↦
            subst (Runs (suc (suc f)) w) (sym (sweep_done (taker o) w.left here ls z))
              (w, q ∷ qs, match_loop-done b o (max_orders + 1) (suc f) w z, idle w (q ∷ qs) v t)
        | inr z ↦ elim (Bool-cases (out_of_reach o px)) [
          | inl far ↦
              subst (Runs (suc (suc f)) w)
                (sym (sweep_far (taker o) w.left here ls z (reach-same o px ∙ far)))
                (
                  w,
                  q ∷ qs,
                  match_loop-far b o (max_orders + 1) (suc f) w z filled far,
                  idle w (q ∷ qs) v t,
                )
          | inr near ↦
              let (w', q', ends, k) =
                sweep_level-IsSwept b o cb px (max_orders + 1) q w v.queues.0 v.queues.2 t
                  (omega (arith, v.queues.2)) in
              let r = sweep_queue (taker o) px w.left (orders w.slots q) in
              subst (Runs (suc (suc f)) w)
                (sym (sweep_on (taker o) w.left here ls z (reach-same o px ∙ near)))
                (after_sweep f w w' q qs r q' v k
                  (sweep_queue-Stops (taker o) px w.left (orders w.slots q))
                  (match_loop-on b o (max_orders + 1) (suc f) w w' r.walled z filled near ends) go)
        ]
      ]

  -- With more fuel than levels the loop ends, as the reference loop does.
  match_loop-IsMatched :
      (f : ℕ) (qs : List (List ℕ)) (w : Work)
      → IsSide w.side w.slots qs
      → IsIndex w.index
      → length qs < f
      → Runs f w (sweep (taker o) w.left (levels w.side w.slots 0 qs))
  unfolding sweep
  match_loop-IsMatched zero qs w v t fuel = absurd (omega arith)
  match_loop-IsMatched (suc f) [] w v t fuel = (
    w,
    [],
    elim (Bool-cases (w.left == 0)) [
      | inl z ↦ match_loop-done b o (max_orders + 1) f w z
      | inr z ↦ match_loop-empty b o (max_orders + 1) f w z (self-test w.side.count 0 v.count)
    ],
    idle w [] v t,
  )
  match_loop-IsMatched (suc zero) (q ∷ qs) w v t fuel = absurd (omega arith)
  match_loop-IsMatched (suc (suc f)) (q ∷ qs) w v t fuel =
      round f qs w q v t (λ w2 u s. match_loop-IsMatched (suc f) qs w2 u s (omega arith))

-- The side on which an order of this side matches.
abbrev pub opposite : Order → Bool
opposite o = not (is_buy o.side)

-- `m` has the quantity, the fills and the side that the reference sweep leaves; the side, whose queues
-- are `qs'`, and the index are well formed.
pub record IsSweepOf (o : Order) (r : Swept (List RefLevel)) (m : Matching) (qs' : List (List ℕ))
    : Type 0 where
  pub incoming : m.incoming ≡ record o { qty_remaining = r.left }
  pub fills : map fill_of m.reports ≡ r.fills
  pub view : levels (side_of (opposite o) m.book) m.book.slots 0 qs' ≡ r.side
  pub side : IsSide (side_of (opposite o) m.book) m.book.slots qs'
  pub index : IsIndex m.book.index

module _ (b : Book) (o : Order) where
  start : Work
  start = record {
    side = side_of (opposite o) b;
    slots = b.slots;
    index = b.index;
    matches = b.stat_matches;
    left = o.qty_remaining;
    reports = [];
  }

  at-start : at b o start ≡ record { book = b; incoming = o; reports = [] }
  unfolding start
  at-start = elim (Bool-cases (is_buy o.side)) [
    | inl t ↦ rw (t, opposite)
    | inr t ↦ rw (t, opposite)
  ]

  side-at : (w : Work) → side_of (opposite o) (at b o w).book ≡ w.side
  side-at w = elim (Bool-cases (is_buy o.side)) [ inl t ↦ rw t | inr t ↦ rw t ]

  index-at : (w : Work) → (at b o w).book.index ≡ w.index
  index-at w = elim (Bool-cases (is_buy o.side)) [ inl t ↦ rw t | inr t ↦ rw t ]

  -- On a side whose linked lists are well formed, with an index that holds a finite map and a callback
  -- set, `try_match` ends within its fuel. It does what the sweep of the reference book does on the
  -- same levels: the same quantity left, the same fills in the same order, the same levels with the same
  -- queues, and stopped by a wall exactly when that is; the side and the index are well formed again.
  pub try_match-sweep :
      (qs : List (List ℕ))
      → b.match_cb ≡ true
      → IsSide (side_of (opposite o) b) b.slots qs
      → IsIndex b.index
      → let r = sweep (taker o) o.qty_remaining (levels (side_of (opposite o) b) b.slots 0 qs) in
        (m : Matching) × (qs' : List (List ℕ)) × (try_match b o ≡ some (m, r.walled))
        × IsSweepOf o r m qs'
  unfolding try_match start
  try_match-sweep qs cb v t =
      let (w', qs', ends, k) =
        match_loop-IsMatched b o cb (max_levels + 1) qs start v t (omega (arith, v.small)) in
      (
        at b o w',
        qs',
        ap (match_loop (max_orders + 1) (max_levels + 1)) (sym at-start) ∙ ends,
        record {
          incoming = ap (λ l. record o { qty_remaining = l }) k.left;
          fills = k.fills;
          view = rw (side-at w', slots-at b o w') k.view;
          side = rw (side-at w', slots-at b o w') k.side;
          index = subst IsIndex (sym (index-at w')) k.index;
        },
      )
