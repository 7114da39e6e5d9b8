-- ===== src/OrderBook/Match.antt =====
-- src/core/order_book.cpp, `OrderBook::try_match`. `none` means that a loop ran out of its fuel, or
-- that the id index was probed for ever.
pub mod Reports
pub mod Progress
pub mod Fills
pub mod Steps
pub mod Level
pub mod Rounds
mod Tests
pub mod Refines
use options_engine.Prelude.{
  ℕ, zero, suc, ◌+◌, ◌-◌, Bool, true, false, ◌&&◌, not, Option, none, some, List, [], ◌∷◌, ◌++◌,
  min, ltb, ◌==◌, if◌then◌else◌,
}
use options_engine.Prelude.Int.{ltb_ℤ}
use options_engine.Prelude.Words.{sub32, add64}
use options_engine.Prelude.Arrays.{update}
use options_engine.Types.{
  Price, Order, Side, buy, sell, is_buy, OrderType, is_market, ExecutionReport, ExecType,
}
use options_engine.OrderBook.Levels.{Levels, null_idx, max_levels, remove_level}
use options_engine.OrderBook.Slots.{Slots, max_orders, free_slot}
use options_engine.OrderBook.Index.{Table, remove}
use options_engine.OrderBook.State.{Book, side_of, put_side}

-- What `try_match` works on: the book, the incoming order, and the reports fired so far.
pub record Matching : Type 0 where
  pub book : Book
  pub incoming : Order
  pub reports : List ExecutionReport

-- A buy works on the asks, a sell on the bids.
abbrev pub passive_is_bid : Order → Bool
passive_is_bid o = not (is_buy o.side)

abbrev pub passive : Matching → Levels
passive m = side_of (passive_is_bid m.incoming) m.book

-- The two price tests before a level: only a market order ignores its price.
unfoldable pub out_of_reach : Order → Price → Bool
out_of_reach o px =
    if is_market o.type then false else if is_buy o.side then ltb_ℤ o.price px else ltb_ℤ px o.price

-- The self-trade test on the order in `slot`.
unfoldable pub same_account : Order → Slots → ℕ → Bool
same_account o p slot = not (o.account_id == 0) && o.account_id == p.accounts slot

unfoldable pub report_of : Matching → ℕ → Price → ℕ → ℕ → ExecutionReport
report_of m slot px fill_qty leaves = record {
  order_id = m.incoming.id;
  contra_order_id = m.book.slots.ids slot;
  exec_price = px;
  exec_qty = fill_qty;
  leaves_qty = leaves;
  symbol = m.book.symbol;
  side = m.incoming.side;
  exec_type = if leaves == 0 then ExecType.fill else ExecType.partial_fill;
}

-- `if (match_cb_) match_cb_(rpt);`
unfoldable pub fire : Bool → List ExecutionReport → ExecutionReport → List ExecutionReport
fire cb reports rpt = if cb then reports ++ rpt ∷ [] else reports

-- The quantities, the report and the count of one fill at the head of level 0.
-- `fill_qty` is the lesser of the two quantities that it is taken from.
unfoldable pub trade : Price → Matching → Matching
trade px m =
    let b = m.book in
    let p = b.slots in
    let s = passive m in
    let slot = s.head_idxs 0 in
    let fill_qty = min m.incoming.qty_remaining (p.qtys slot) in
    let leaves = m.incoming.qty_remaining - fill_qty in
    let s' = record s { qtys = update s.qtys 0 (sub32 (s.qtys 0) fill_qty) } in
    let b' = record b {
      slots = record p { qtys = update p.qtys slot (p.qtys slot - fill_qty) };
      stat_matches = add64 b.stat_matches 1;
    } in
    record {
      book = put_side (passive_is_bid m.incoming) s' b';
      incoming = record (m.incoming) { qty_remaining = leaves };
      reports = fire b.match_cb m.reports (report_of m slot px fill_qty leaves);
    }

-- `head_idxs[0] = nexts[slot]` with the tail or the new head's `prevs` reset.
unfoldable pub advance_head : Levels → Slots → ℕ → Levels × Slots
advance_head s p slot =
    let next = p.nexts slot in
    let last = next == null_idx in
    (
      record s {
        head_idxs = update s.head_idxs 0 next;
        tail_idxs = if last then update s.tail_idxs 0 null_idx else s.tail_idxs;
        order_counts = update s.order_counts 0 (sub32 (s.order_counts 0) 1);
      },
      record p { prevs = if last then p.prevs else update p.prevs next null_idx },
    )

-- The passive order in `slot` is filled: off the queue, out of the index, back to the pool.
unfoldable pub dequeue : Matching → ℕ → Option Matching
unfolding advance_head
dequeue m slot =
    let (s, p) = advance_head (passive m) m.book.slots slot in
    elim (remove m.book.index (m.book.slots.ids slot)) [
      | none ↦ none
      | some (t, _) ↦ some (record m {
        book =
            put_side (passive_is_bid m.incoming) s
              (record (m.book) { slots = free_slot p slot; index = t });
      })
    ]

-- The body of the inner loop, past the self-trade test.
unfoldable pub fill_head : Price → Matching → Option Matching
unfolding trade dequeue report_of fire
fill_head px m =
    let slot = (passive m).head_idxs 0 in
    let m' = trade px m in if m'.book.slots.qtys slot == 0 then dequeue m' slot else some m'

-- The inner loop on level 0. The flag says that it stopped at an order of the same account.
unfoldable pub sweep_level : ℕ → Price → Matching → Option (Matching × Bool)
unfolding fill_head same_account
sweep_level zero px m = none
sweep_level (suc f) px m =
    let slot = (passive m).head_idxs 0 in
    let rest : Option (Matching × Bool) = elim (fill_head px m) [
      | none ↦ none
      | some m' ↦ sweep_level f px m'
    ] in
    if slot == null_idx
    then some (m, false)
    else if m.incoming.qty_remaining == 0
    then some (m, false)
    else if same_account m.incoming m.book.slots slot
    then some (m, true)
    else rest

-- `if (order_counts[0] == 0) remove_level(0);`
unfoldable pub drop_exhausted : Matching → Matching
drop_exhausted m =
    let s = passive m in
    if s.order_counts 0 == 0
    then record m { book = put_side (passive_is_bid m.incoming) (remove_level s 0) m.book }
    else m

-- The outer loop, with fuel for the levels and for the orders of each.
unfoldable pub match_loop : ℕ → ℕ → Matching → Option (Matching × Bool)
unfolding sweep_level drop_exhausted out_of_reach
match_loop orders zero m = none
match_loop orders (suc f) m =
    let px = (passive m).prices 0 in
    let rest : Option (Matching × Bool) = elim (sweep_level orders px m) [
      | none ↦ none
      | some (m', true) ↦ some (m', true)
      | some (m', false) ↦ match_loop orders f (drop_exhausted m')
    ] in
    if m.incoming.qty_remaining == 0
    then some (m, false)
    else if (passive m).count == 0
    then some (m, false)
    else if out_of_reach m.incoming px
    then some (m, false)
    else rest

unfoldable pub try_match : Book → Order → Option (Matching × Bool)
unfolding match_loop
try_match b o =
    match_loop (max_orders + 1) (max_levels + 1) (record { book = b; incoming = o; reports = [] })
