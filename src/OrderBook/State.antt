-- ===== src/OrderBook/State.antt =====
-- src/core/order_book.cpp: the state of an `OrderBook`, its two sides told apart by `is_bid`.
-- The two words of `match_cb_` are modelled by whether a callback is set; what it is called with is
-- the list of reports that an operation returns.
use options_engine.Prelude.{ℕ, Bool, true, false, ◌==◌, if◌then◌else◌}
use options_engine.Prelude.Words.{sub32}
use options_engine.Prelude.Arrays.{update}
use options_engine.Types.{SymbolId}
use options_engine.OrderBook.Levels.{Levels, null_idx, remove_level}
use options_engine.OrderBook.Slots.{Slots, max_orders, free_slot}
use options_engine.OrderBook.Slots
use options_engine.OrderBook.Index.{Table}
use options_engine.OrderBook.Index

pub record Book : Type 0 where
  pub match_cb : Bool
  pub symbol : SymbolId
  pub bids : Levels
  pub asks : Levels
  pub slots : Slots
  pub index : Table
  pub stat_orders : ℕ
  pub stat_matches : ℕ
  pub stat_cancelled : ℕ
  pub stat_rejected : ℕ
  pub stat_self_trade_prevented : ℕ

-- The constructor. The arrays of `raw_levels` and `raw_slots` are not initialised by it.
unfoldable pub construct : SymbolId → Bool → Levels → Slots → Book
construct symbol cb raw_levels raw_slots = record {
  match_cb = cb;
  symbol = symbol;
  bids = record raw_levels { count = 0 };
  asks = record raw_levels { count = 0 };
  slots = Slots.init max_orders raw_slots;
  index = Index.init;
  stat_orders = 0;
  stat_matches = 0;
  stat_cancelled = 0;
  stat_rejected = 0;
  stat_self_trade_prevented = 0;
}

-- `is_bid ? bids_ : asks_`
abbrev pub side_of : Bool → Book → Levels
side_of true b = b.bids
side_of false b = b.asks

abbrev pub put_side : Bool → Levels → Book → Book
put_side true s b = record b { bids = s }
put_side false s b = record b { asks = s }

-- `if (prev != NULL_IDX) nexts[prev] = next; else head_idxs[lvl] = next;` and the same backwards.
unfoldable pub unlink : Levels → Slots → ℕ → ℕ → Levels × Slots
unlink s p lvl slot =
    let prev = p.prevs slot in
    let next = p.nexts slot in
    let nexts = if prev == null_idx then p.nexts else update p.nexts prev next in
    let heads = if prev == null_idx then update s.head_idxs lvl next else s.head_idxs in
    let prevs = if next == null_idx then p.prevs else update p.prevs next prev in
    let tails = if next == null_idx then update s.tail_idxs lvl prev else s.tail_idxs in
    (record s { head_idxs = heads; tail_idxs = tails }, record p { nexts = nexts; prevs = prevs })

unfoldable pub remove_order_from_level : Book → Bool → ℕ → ℕ → Book
unfolding unlink
remove_order_from_level b is_bid lvl slot =
    let s = side_of is_bid b in
    let s1 = record s {
      qtys = update s.qtys lvl (sub32 (s.qtys lvl) (b.slots.qtys slot));
      order_counts = update s.order_counts lvl (sub32 (s.order_counts lvl) 1);
    } in
    let (s2, p) = unlink s1 b.slots lvl slot in
    let s3 = if s2.order_counts lvl == 0 then remove_level s2 lvl else s2 in
    put_side is_bid s3 (record b { slots = free_slot p slot })
