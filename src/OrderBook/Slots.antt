-- ===== src/OrderBook/Slots.antt =====
-- src/core/order_book.cpp, `OrderBook::SlotPool`: order slots as parallel arrays with a free list.
pub mod FreeList
use options_engine.Prelude.{ℕ, zero, suc, ◌+◌, ◌-◌, Option, none, some, ◌==◌, if◌then◌else◌}
use options_engine.Prelude.Words.{add32, sub32}
use options_engine.Prelude.Arrays.{Array, update}
use options_engine.Types.{Price, Qty, OrderId}
use options_engine.OrderBook.Levels.{null_idx}

abbrev pub max_orders : ℕ
max_orders = 65536

pub record Slots : Type 0 where
  pub ids : Array OrderId
  pub qtys : Array Qty
  pub nexts : Array ℕ
  pub prevs : Array ℕ
  pub free_nexts : Array ℕ
  pub prices : Array Price
  pub accounts : Array ℕ
  pub free_head : ℕ
  pub used : ℕ

-- `for (i = 0; i < kMaxOrders - 1; ++i) free_nexts[i] = i + 1;`, with `n` rounds left.
unfoldable pub chain_from : ℕ → ℕ → Array ℕ → Array ℕ
chain_from i zero f = f
chain_from i (suc n) f = chain_from (i + 1) n (update f i (i + 1))

-- The pool of `capacity` slots, `kMaxOrders` in the book.
unfoldable pub init : ℕ → Slots → Slots
unfolding chain_from
init capacity s = record s {
  free_nexts = update (chain_from 0 (capacity - 1) s.free_nexts) (capacity - 1) null_idx;
  free_head = 0;
  used = 0;
}

-- The pool and the slot taken, or NULL_IDX.
unfoldable pub alloc : Slots → Slots × ℕ
alloc s =
    if s.free_head == null_idx
    then (s, null_idx)
    else (record s { free_head = s.free_nexts s.free_head; used = add32 s.used 1 }, s.free_head)

unfoldable pub free_slot : Slots → ℕ → Slots
free_slot s idx = record s {
  free_nexts = update s.free_nexts idx s.free_head;
  free_head = idx;
  used = sub32 s.used 1;
}
