-- ===== src/OrderBook/Match/Level/Sweep.antt =====
-- The inner loop of `try_match` ends within its fuel with what `RefBook::sweep` leaves of the queue.
use mathlib.Core.Path.{subst}
use options_engine.Prelude.{
  ℕ, zero, suc, ◌-◌, ◌≤◌, ◌<◌, ◌≡◌, ◌≢◌, refl, ap, sym, ◌∙◌, inl, inr, Bool, true, false, some,
  List, [], ◌∷◌, ◌++◌, map, min, arith, ◌==◌, Bool-cases, length, if◌then◌else◌, append_assoc,
  map-snoc,
}
use options_engine.Prelude.Words.{sub32, sub32_exact}
use options_engine.Prelude.Arrays.{Array, update, update_self, update_ne}
use options_engine.Types.{Price, Order}
use options_engine.OrderBook.Levels.{null_idx}
use options_engine.OrderBook.Levels.Shift.{row}
use options_engine.OrderBook.Slots.{Slots, max_orders, free_slot}
use options_engine.OrderBook.Slots.FreeList.{Chain, Absent}
use options_engine.OrderBook.Index.{Table, remove}
use options_engine.OrderBook.Index.Finite.Remove.{remove-Models}
use options_engine.OrderBook.State.{Book}
use options_engine.OrderBook.View.{order_at, orders, IsQueue, Apart, IsIndex, orders-outside}
use options_engine.OrderBook.Match.{sweep_level, same_account, advance_head, report_of}
use options_engine.OrderBook.Match.Steps.{
  Work, at, traded, dequeued, fill_head-gone, fill_head-stays, sweep_level-empty, sweep_level-done,
  sweep_level-wall, sweep_level-on,
}
use options_engine.OrderBook.Match.Level.{
  fill_of, IsSwept, idle, queue_done, queue_wall, queue_pop, queue_part,
}
use options_engine.Reference.{RefOrder, Fill, taker, is_wall, Swept, sweep_queue}

ne-test : (a b : ℕ) → a ≢ b → (a == b) ≡ false
ne-test a b h = ground arith

self-test : (a b : ℕ) → a ≡ b → (a == b) ≡ true
self-test a b h = ground arith

Absent-Apart : (x : ℕ) (q : List ℕ) → Absent x q → Apart q (x ∷ [])
Absent-Apart x [] a = tt
Absent-Apart x (y ∷ q) a = ((λ e. a.0 (sym e), tt), Absent-Apart x q a.1)

-- The index without an id.
remove-IsIndex :
    (t : Table) (id : ℕ)
    → IsIndex t
    → (t' : Table) × (r : Bool) × (remove t id ≡ some (t', r)) × IsIndex t'
remove-IsIndex t id (n, f, room, v) =
    let (t', n', e, c, v') = remove-Models t n f id v room in
    (t', _, e, (n', _, omega (arith, c), v'))

module _ (b : Book) (o : Order) (cb : b.match_cb ≡ true) (px : Price) where
  -- The loop on `w`, whose queue is `q`, ends as the reference loop that ends in `r`.
  abbrev pub Runs : ℕ → Work → List ℕ → Swept (List RefOrder) → Type 0
  Runs f w q r =
      (w' : Work) × (q' : List ℕ) × (sweep_level f px (at b o w) ≡ some (at b o w', r.walled))
      × IsSwept q w w' r q'

  abbrev fill : Work → ℕ → Fill
  fill w h = record {
    aggr = o.id;
    passive = w.slots.ids h;
    px = px;
    qty = min w.left (w.slots.qtys h);
  }

  wall-same : (p : Slots) (x : ℕ) → is_wall (taker o).account (order_at p x) ≡ same_account o p x
  unfolding same_account
  wall-same p x = refl

  report-fill :
      (w : Work)
      → map fill_of (traded b o px w).reports
        ≡ map fill_of w.reports ++ fill w (w.side.head_idxs 0) ∷ []
  unfolding report_of
  report-fill w = map-snoc fill_of w.reports _

  traded-outside :
      (w : Work) (x : ℕ)
      → x ≢ w.side.head_idxs 0
      → order_at (traded b o px w).slots x ≡ order_at w.slots x
  traded-outside w x ne = rw (update_ne w.slots.qtys (w.side.head_idxs 0) x _ (λ e. ne (sym e)))

  -- Nothing left, or a wall: the loop stops.
  stop_done :
      (f : ℕ) (w : Work) (q : List ℕ)
      → let h = w.side.head_idxs 0 in
        IsQueue w.slots.nexts (row w.side 0) (h ∷ q)
        → IsIndex w.index
        → (w.left == 0) ≡ true
        → Runs (suc f) w (h ∷ q) (sweep_queue (taker o) px w.left (orders w.slots (h ∷ q)))
  stop_done f w q v t z =
      let h = w.side.head_idxs 0 in
      subst (Runs (suc f) w (h ∷ q))
        (sym (queue_done (taker o) px w.left (order_at w.slots h) (orders w.slots q) z))
        (
          w,
          h ∷ q,
          sweep_level-done b o f px w (ne-test h null_idx v.chain.1) z,
          idle (h ∷ q) w false v t,
        )

  stop_wall :
      (f : ℕ) (w : Work) (q : List ℕ)
      → let h = w.side.head_idxs 0 in
        IsQueue w.slots.nexts (row w.side 0) (h ∷ q)
        → IsIndex w.index
        → (w.left == 0) ≡ false
        → same_account o w.slots h ≡ true
        → Runs (suc f) w (h ∷ q) (sweep_queue (taker o) px w.left (orders w.slots (h ∷ q)))
  stop_wall f w q v t z a =
      let h = w.side.head_idxs 0 in
      subst (Runs (suc f) w (h ∷ q))
        (sym (
          queue_wall (taker o) px w.left (order_at w.slots h) (orders w.slots q) z
            (wall-same w.slots h ∙ a)))
        (
          w,
          h ∷ q,
          sweep_level-wall b o f px w (ne-test h null_idx v.chain.1) z a,
          idle (h ∷ q) w true v t,
        )

  -- The order at the head is not used up, so nothing is left.
  fill_part :
      (f : ℕ) (w : Work) (q : List ℕ)
      → let h = w.side.head_idxs 0 in
        IsQueue w.slots.nexts (row w.side 0) (h ∷ q)
        → IsIndex w.index
        → (w.left == 0) ≡ false
        → same_account o w.slots h ≡ false
        → (w.slots.qtys h == min w.left (w.slots.qtys h)) ≡ false
        → Runs (suc (suc f)) w (h ∷ q) (sweep_queue (taker o) px w.left (orders w.slots (h ∷ q)))
  fill_part f w q v t z a part =
      let h = w.side.head_idxs 0 in
      let w' = traded b o px w in
      let rem = update_self w.slots.qtys h (w.slots.qtys h - min w.left (w.slots.qtys h)) in
      let stays : (w'.slots.qtys h == 0) ≡ false =
        rw rem (part-stays w.left (w.slots.qtys h) part) in
      let none_left : (w.left - min w.left (w.slots.qtys h) == 0) ≡ true =
        part-left w.left (w.slots.qtys h) part in
      let here = ne-test h null_idx v.chain.1 in
      subst (Runs (suc (suc f)) w (h ∷ q))
        (sym (
          queue_part (taker o) px w.left (order_at w.slots h) (orders w.slots q) z
            (wall-same w.slots h ∙ a) part))
        (
          w',
          h ∷ q,
          sweep_level-on b o (suc f) px w w' here z a (fill_head-stays b o px w cb stays)
              ∙ sweep_level-done b o f px w' here none_left,
          record {
            left = refl;
            queue = record { chain = v.chain; counted = v.counted; distinct = v.distinct };
            view = rw (
              rem,
              orders-outside w.slots w'.slots q (h ∷ []) (λ x e. traded-outside w x e.0)
                  (Absent-Apart h q v.distinct.0),
            );
            fills = report-fill w;
            count = refl;
            price = refl;
            rows = λ i ne. rw (update_ne w.side.qtys 0 i _ (λ e. ne (sym e)));
            nexts = refl;
            outside = λ x e. traded-outside w x e.0;
            sub = λ x e. e;
            short = omega arith;
            index = t;
          },
        )
    where
      part-stays : (l r : ℕ) → (r == min l r) ≡ false → (r - min l r == 0) ≡ false
      part-stays l r e = ground arith

      part-left : (l r : ℕ) → (r == min l r) ≡ false → (l - min l r == 0) ≡ true
      part-left l r e = ground arith

  -- The order at the head is used up: the loop goes on with the rest of the queue.
  fill_pop :
      (f : ℕ) (w : Work) (q : List ℕ)
      → let h = w.side.head_idxs 0 in
        IsQueue w.slots.nexts (row w.side 0) (h ∷ q)
        → length (h ∷ q) ≤ max_orders
        → IsIndex w.index
        → (w.left == 0) ≡ false
        → same_account o w.slots h ≡ false
        → (w.slots.qtys h == min w.left (w.slots.qtys h)) ≡ true
        → ((w1 : Work)
            → IsQueue w1.slots.nexts (row w1.side 0) q
            → IsIndex w1.index
            → Runs f w1 q (sweep_queue (taker o) px w1.left (orders w1.slots q)))
        → Runs (suc f) w (h ∷ q) (sweep_queue (taker o) px w.left (orders w.slots (h ∷ q)))
  unfolding advance_head free_slot
  fill_pop f w q v small t z a full go =
      let h = w.side.head_idxs 0 in
      let w' = traded b o px w in
      let (t', r, removed, t1) = remove-IsIndex w.index (w.slots.ids h) t in
      let w1 = dequeued b o h w' t' in
      let rem = update_self w.slots.qtys h (w.slots.qtys h - min w.left (w.slots.qtys h)) in
      let gone : (w'.slots.qtys h == 0) ≡ true = rw rem (pop-gone w.left (w.slots.qtys h) full) in
      let here = ne-test h null_idx v.chain.1 in
      let next : w1.side.head_idxs 0 ≡ w.slots.nexts h =
        update_self w.side.head_idxs 0 (w.slots.nexts h) in
      let fewer : w1.side.order_counts 0 ≡ length q =
        update_self w.side.order_counts 0 (sub32 (w.side.order_counts 0) 1)
        ∙ sub32_exact (w.side.order_counts 0) 1 (omega (arith, v.counted))
            (omega (arith, v.counted))
        ∙ omega (arith, v.counted) in
      let same : orders w1.slots q ≡ orders w.slots q =
        orders-outside w.slots w'.slots q (h ∷ []) (λ x e. traded-outside w x e.0)
          (Absent-Apart h q v.distinct.0) in
      let v1 : IsQueue w1.slots.nexts (row w1.side 0) q = record {
        chain = subst (λ x. Chain w.slots.nexts x q) (sym next) v.chain.2;
        counted = fewer;
        distinct = v.distinct.1;
      } in
      let more = (sweep_queue (taker o) px w1.left (orders w.slots q)).fills in
      let (w2, q', ends, k) : Runs f w1 q (sweep_queue (taker o) px w1.left (orders w.slots q)) =
        subst (λ x. Runs f w1 q (sweep_queue (taker o) px w1.left x)) same (go w1 v1 t1) in
      subst (Runs (suc f) w (h ∷ q))
        (sym (
          queue_pop (taker o) px w.left (order_at w.slots h) (orders w.slots q) z
            (wall-same w.slots h ∙ a) full))
        (
          w2,
          q',
          sweep_level-on b o f px w w1 here z a (fill_head-gone b o px w t' r cb gone removed)
              ∙ ends,
          record {
            left = k.left;
            queue = k.queue;
            view = k.view;
            fills =
                k.fills
                ∙ ap (λ x. x ++ more) (report-fill w)
                ∙ append_assoc (map fill_of w.reports) (fill w h ∷ []) more;
            count = k.count;
            price = k.price;
            rows = λ i ne.
                k.rows i ne
                ∙ rw (
                  update_ne w.side.qtys 0 i _ (λ e. ne (sym e)),
                  update_ne w.side.head_idxs 0 i _ (λ e. ne (sym e)),
                  update_ne w.side.order_counts 0 i _ (λ e. ne (sym e)),
                  kept_tail (w.slots.nexts h == null_idx) w.side.tail_idxs i ne,
                );
            nexts = k.nexts;
            outside = λ x e. k.outside x e.1 ∙ traded-outside w x e.0;
            sub = λ x e. k.sub x e.1;
            short = omega (arith, k.short);
            index = k.index;
          },
        )
    where
      pop-gone : (l r : ℕ) → (r == min l r) ≡ true → (r - min l r == 0) ≡ true
      pop-gone l r e = ground arith

      kept_tail :
          (last : Bool) (tails : Array ℕ) (i : ℕ)
          → i ≢ 0
          → (if last then update tails 0 null_idx else tails) i ≡ tails i
      kept_tail true tails i ne = update_ne tails 0 i null_idx (λ e. ne (sym e))
      kept_tail false tails i ne = refl

  -- The loop at a queue with an order at its head.
  at_head :
      (f : ℕ) (w : Work) (q : List ℕ)
      → let h = w.side.head_idxs 0 in
        IsQueue w.slots.nexts (row w.side 0) (h ∷ q)
        → length (h ∷ q) ≤ max_orders
        → IsIndex w.index
        → ((w1 : Work)
            → IsQueue w1.slots.nexts (row w1.side 0) q
            → IsIndex w1.index
            → Runs (suc f) w1 q (sweep_queue (taker o) px w1.left (orders w1.slots q)))
        → Runs (suc (suc f)) w (h ∷ q) (sweep_queue (taker o) px w.left (orders w.slots (h ∷ q)))
  at_head f w q v small t go =
      let h = w.side.head_idxs 0 in
      elim (Bool-cases (w.left == 0)) [
        | inl z ↦ stop_done (suc f) w q v t z
        | inr z ↦ elim (Bool-cases (same_account o w.slots h)) [
          | inl a ↦ stop_wall (suc f) w q v t z a
          | inr a ↦ elim (Bool-cases (w.slots.qtys h == min w.left (w.slots.qtys h))) [
            | inl full ↦ fill_pop (suc f) w q v small t z a full go
            | inr part ↦ fill_part f w q v t z a part
          ]
        ]
      ]

  -- With more fuel than orders the loop on a queue ends, as the reference loop does.
  pub sweep_level-IsSwept :
      (f : ℕ) (q : List ℕ) (w : Work)
      → IsQueue w.slots.nexts (row w.side 0) q
      → length q ≤ max_orders
      → IsIndex w.index
      → length q < f
      → Runs f w q (sweep_queue (taker o) px w.left (orders w.slots q))
  unfolding sweep_queue
  sweep_level-IsSwept zero q w v small t fuel = absurd (omega arith)
  sweep_level-IsSwept (suc f) [] w v small t fuel = (
    w,
    [],
    sweep_level-empty b o f px w (self-test (w.side.head_idxs 0) null_idx v.chain),
    idle [] w false v t,
  )
  sweep_level-IsSwept (suc zero) (x ∷ q) w v small t fuel = absurd (omega arith)
  sweep_level-IsSwept (suc (suc f)) (x ∷ q) w v small t fuel =
      moved (w.side.head_idxs 0) v.chain.0 v (λ u.
        at_head f w q u small t
          (λ w1 v1 t1. sweep_level-IsSwept (suc f) q w1 v1 (omega arith) t1 (omega arith)))
    where
      Result : ℕ → Type 0
      Result y =
          Runs (suc (suc f)) w (y ∷ q) (sweep_queue (taker o) px w.left (orders w.slots (y ∷ q)))

      moved :
          (y : ℕ)
          → y ≡ x
          → IsQueue w.slots.nexts (row w.side 0) (x ∷ q)
          → (IsQueue w.slots.nexts (row w.side 0) (y ∷ q) → Result y)
          → Result x
      moved y e u g =
          subst Result e (g (subst (λ z. IsQueue w.slots.nexts (row w.side 0) (z ∷ q)) (sym e) u))
