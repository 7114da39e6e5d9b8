-- ===== src/ReplayTrace.antt =====
-- tools/replay_trace.cpp: the determinism check. File access is left out.
pub mod Generate
pub mod Recording
pub mod Replays
mod Tests
use options_engine.Prelude.{
  ℕ, Bool, true, false, ◌&&◌, Option, none, some, List, [], ◌∷◌, ◌++◌, ◌==◌, if◌then◌else◌,
}
use options_engine.Prelude.Int.{eqb_ℤ}
use options_engine.Types.{
  Price, Order, OrderStatus, buy, sell, order_type_of, ExecutionReport, ExecType,
}
use options_engine.OrderBook.State.{Book}
use options_engine.OrderBook.Orders

pub record TraceEvent : Type 0 where
  pub kind : ℕ
  pub side : ℕ
  pub type : ℕ
  pub id : ℕ
  pub price : Price
  pub qty : ℕ
  pub account_id : ℕ

pub record TraceFill : Type 0 where
  pub aggr_id : ℕ
  pub passive_id : ℕ
  pub price : Price
  pub qty : ℕ

-- The callback of `run`: a fill of each report that is one.
unfoldable pub fills_of : List ExecutionReport → List TraceFill
fills_of [] = []
fills_of (r ∷ rs) =
    let f : TraceFill = record {
      aggr_id = r.order_id;
      passive_id = r.contra_order_id;
      price = r.exec_price;
      qty = r.exec_qty;
    } in
    let more = fills_of rs in
    elim r.exec_type [ ExecType.fill ↦ f ∷ more | ExecType.partial_fill ↦ f ∷ more | _ ↦ more ]

-- `sym` is 1. `static_cast<Side>` of a byte: the book only ever tests it against Buy.
unfoldable pub order_of_event : TraceEvent → Order
order_of_event e = record {
  id = e.id;
  price = e.price;
  qty = e.qty;
  qty_remaining = e.qty;
  symbol = 1;
  side = if e.side == 0 then buy else sell;
  type = order_type_of e.type;
  status = OrderStatus.new;
  account_id = e.account_id;
}

unfoldable pub run_event : Book → TraceEvent → Option (Book × List TraceFill)
unfolding order_of_event fills_of
run_event b e =
    if e.kind == 0
    then elim (Orders.add_order b (order_of_event e)) [
      | none ↦ none
      | some out ↦ some (out.book, fills_of out.reports)
    ]
    else if e.kind == 1
    then elim (Orders.cancel_order b e.id) [ none ↦ none | some (b', _) ↦ some (b', []) ]
    else elim (Orders.modify_order b e.id e.qty) [ none ↦ none | some (b', _) ↦ some (b', []) ]

-- `run` on a book that is handed in: the fills appended to `out_fills`.
unfoldable pub run_from : Book → List TraceEvent → List TraceFill → Option (List TraceFill)
unfolding run_event
run_from b [] out = some out
run_from b (e ∷ es) out = elim (run_event b e) [
  | none ↦ none
  | some (b', fs) ↦ run_from b' es (out ++ fs)
]

unfoldable pub same_fill : TraceFill → TraceFill → Bool
same_fill a b =
    a.aggr_id == b.aggr_id
    && a.passive_id == b.passive_id
    && eqb_ℤ a.price b.price
    && a.qty == b.qty

-- `same_size` and `memcmp` over records whose padding is zero.
unfoldable pub identical : List TraceFill → List TraceFill → Bool
unfolding same_fill
identical [] [] = true
identical [] (b ∷ bs) = false
identical (a ∷ as') [] = false
identical (a ∷ as') (b ∷ bs) = same_fill a b && identical as' bs

-- `cmd_replay`, given the fresh book, the trace and the recorded fills.
unfoldable pub replay_passes : Book → List TraceEvent → List TraceFill → Option Bool
unfolding run_from identical
replay_passes fresh stream expected = elim (run_from fresh stream []) [
  | none ↦ none
  | some actual ↦ some (identical actual expected)
]
