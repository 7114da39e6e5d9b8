-- ===== src/OrderBook/Match/Level.antt =====
-- The inner loop of `try_match` on one level does what `RefBook::sweep` does on its queue.
pub mod Sweep
use options_engine.Prelude.{
  ℕ, zero, suc, ◌+◌, ◌-◌, ◌≤◌, ◌<◌, ◌≡◌, ◌≢◌, refl, ap, sym, ◌∙◌, inl, inr, Bool, true, false, not,
  Option, none, some, List, [], ◌∷◌, ◌++◌, map, append_nil, min, arith, ◌==◌, Bool-cases, length,
  ◌&&◌,
}
use options_engine.Prelude.Words.{sub32, sub32_exact}
use options_engine.Prelude.Arrays.{Array, update, update_self, update_ne}
use options_engine.Types.{Price, Order, ExecutionReport}
use options_engine.OrderBook.Levels.{Levels, null_idx}
use options_engine.OrderBook.Levels.Shift.{row}
use options_engine.OrderBook.Slots.{Slots, max_orders, free_slot}
use options_engine.OrderBook.Slots.FreeList.{Chain, Absent, Distinct}
use options_engine.OrderBook.Index.{Table, remove}
use options_engine.OrderBook.Index.Finite.Remove.{remove-Models}
use options_engine.OrderBook.State.{Book}
use options_engine.OrderBook.View.{order_at, orders, IsQueue, Apart, IsIndex, orders-outside}
use options_engine.OrderBook.Match.{sweep_level, same_account, advance_head, report_of}
use options_engine.OrderBook.Match.Steps.{
  Work, at, traded, dequeued, fill_head-gone, fill_head-stays, sweep_level-empty, sweep_level-done,
  sweep_level-wall, sweep_level-on,
}
use options_engine.Reference.{RefOrder, Fill, Taker, taker, is_wall, Swept, sweep_queue}

-- A report as the fill that it tells of.
abbrev pub fill_of : ExecutionReport → Fill
fill_of r = record {
  aggr = r.order_id;
  passive = r.contra_order_id;
  px = r.exec_price;
  qty = r.exec_qty;
}

-- `w'` is `w` after the sweep of the queue `q` that leaves `r`, and `q'` of the queue.
pub record IsSwept (q : List ℕ) (w w' : Work) (r : Swept (List RefOrder)) (q' : List ℕ)
    : Type 0 where
  pub left : w'.left ≡ r.left
  pub queue : IsQueue w'.slots.nexts (row w'.side 0) q'
  pub view : orders w'.slots q' ≡ r.side
  pub fills : map fill_of w'.reports ≡ map fill_of w.reports ++ r.fills
  pub count : w'.side.count ≡ w.side.count
  pub price : w'.side.prices ≡ w.side.prices
  pub rows : (i : ℕ) → i ≢ 0 → row w'.side i ≡ row w.side i
  pub nexts : w'.slots.nexts ≡ w.slots.nexts
  pub outside : (x : ℕ) → Absent x q → order_at w'.slots x ≡ order_at w.slots x
  pub sub : (x : ℕ) → Absent x q → Absent x q'
  pub short : length q' ≤ length q
  pub index : IsIndex w'.index

-- A sweep that does nothing.
pub idle :
    (q : List ℕ) (w : Work) (walled : Bool)
    → IsQueue w.slots.nexts (row w.side 0) q
    → IsIndex w.index
    → IsSwept q w w
        (record { side = orders w.slots q; left = w.left; fills = []; walled = walled; popped = 0 })
        q
idle q w walled v t = record {
  left = refl;
  queue = v;
  view = refl;
  fills = sym (append_nil (map fill_of w.reports));
  count = refl;
  price = refl;
  rows = λ i ne. refl;
  nexts = refl;
  outside = λ x a. refl;
  sub = λ x a. a;
  short = omega arith;
  index = t;
}

-- The rounds of the reference loop.
module _ (t : Taker) (px : Price) (qty : ℕ) (o : RefOrder) (q : List RefOrder) where
  abbrev pub popped : Swept (List RefOrder) → Swept (List RefOrder)
  popped r = record r {
    fills = record { aggr = t.id; passive = o.id; px = px; qty = min qty o.rem } ∷ r.fills;
    popped = suc r.popped;
  }

  pub queue_done :
      (qty == 0) ≡ true
      → sweep_queue t px qty (o ∷ q)
        ≡ record { side = o ∷ q; left = qty; fills = []; walled = false; popped = 0 }
  unfolding sweep_queue
  queue_done a = rw (a, sweep_queue)

  pub queue_wall :
      (qty == 0) ≡ false
      → is_wall t.account o ≡ true
      → sweep_queue t px qty (o ∷ q)
        ≡ record { side = o ∷ q; left = qty; fills = []; walled = true; popped = 0 }
  unfolding sweep_queue
  queue_wall a b = rw (a, b, sweep_queue)

  pub queue_pop :
      (qty == 0) ≡ false
      → is_wall t.account o ≡ false
      → (o.rem == min qty o.rem) ≡ true
      → sweep_queue t px qty (o ∷ q) ≡ popped (sweep_queue t px (qty - min qty o.rem) q)
  unfolding sweep_queue
  queue_pop a b c = rw (a, b, c, sweep_queue)

  pub queue_part :
      (qty == 0) ≡ false
      → is_wall t.account o ≡ false
      → (o.rem == min qty o.rem) ≡ false
      → sweep_queue t px qty (o ∷ q) ≡ record {
        side = record o { rem = o.rem - min qty o.rem } ∷ q;
        left = qty - min qty o.rem;
        fills = record { aggr = t.id; passive = o.id; px = px; qty = min qty o.rem } ∷ [];
        walled = false;
        popped = 0;
      }
  unfolding sweep_queue
  queue_part a b c = rw (a, b, c, sweep_queue)
