-- ===== src/Engine.antt =====
-- src/core/matching_engine.cpp: one engine thread between an inbound and an outbound ring.
-- A book's reports are handed to `on_execution` in order; the book does not read the outbound ring, so
-- handing them over after the book's call instead of during it changes nothing.
pub mod Isolation
mod Tests
use options_engine.Prelude.{
  ℕ, zero, suc, ◌+◌, Bool, true, false, Option, none, some, List, [], ◌∷◌, leb, ◌==◌, if◌then◌else◌,
}
use options_engine.Prelude.Words.{add64}
use options_engine.Prelude.Arrays.{Array, update}
use options_engine.Types.{
  SymbolId, Order, OrderStatus, ExecutionReport, MarketDataMsg, MsgType, new_order, cancel_order,
  modify_order, heartbeat,
}
use options_engine.Spsc.{Ring, try_push, try_pop}
use options_engine.OrderBook.Levels.{Levels}
use options_engine.OrderBook.Slots.{Slots}
use options_engine.OrderBook.State.{Book}
use options_engine.OrderBook.State
use options_engine.OrderBook.Orders

abbrev pub queue_depth : ℕ
queue_depth = 65536

abbrev pub max_symbols : ℕ
max_symbols = 256

pub record Engine : Type 0 where
  pub inbound : Ring MarketDataMsg
  pub outbound : Ring ExecutionReport
  pub books : Array (Option Book)
  pub running : Bool
  pub stat_messages : ℕ
  pub stat_matches : ℕ
  pub next_order_id : ℕ

-- The arrays of a fresh book are not initialised: they are arguments.
unfoldable pub register_symbol : Levels → Slots → Engine → SymbolId → Engine × Bool
register_symbol raw_levels raw_slots e id =
    let book = State.construct id true raw_levels raw_slots in
    if leb max_symbols id then (e, false) else elim (e.books id) [
      | some _ ↦ (e, false)
      | none ↦ (record e { books = update e.books id (some book) }, true)
    ]

unfoldable pub submit : Engine → MarketDataMsg → Engine × Bool
submit e msg =
    let (q, pushed) = try_push queue_depth e.inbound msg in (record e { inbound = q }, pushed)

unfoldable pub poll_report : Engine → Engine × Option ExecutionReport
poll_report e = let (q, rpt) = try_pop queue_depth e.outbound in (record e { outbound = q }, rpt)

-- A full outbound ring drops the report.
unfoldable pub on_execution : Engine → ExecutionReport → Engine
on_execution e rpt = record e {
  stat_matches = add64 e.stat_matches 1;
  outbound = (try_push queue_depth e.outbound rpt).0;
}

unfoldable pub on_executions : Engine → List ExecutionReport → Engine
unfolding on_execution
on_executions e [] = e
on_executions e (r ∷ rs) = on_executions (on_execution e r) rs

-- The order made of a `NewOrder` message; id 0 takes the next synthetic id.
unfoldable pub order_of : Engine → MarketDataMsg → Order
order_of e msg = record {
  id = if msg.order_id == 0 then e.next_order_id else msg.order_id;
  price = msg.price;
  qty = msg.qty;
  qty_remaining = msg.qty;
  symbol = msg.symbol;
  side = msg.side;
  type = msg.order_type;
  status = OrderStatus.new;
  account_id = 0;
}

unfoldable pub handle_new : Engine → Book → MarketDataMsg → Option Engine
unfolding order_of on_executions
handle_new e b msg = elim (Orders.add_order b (order_of e msg)) [
  | none ↦ none
  | some out ↦ some (
      on_executions
        (record e {
          books = update e.books msg.symbol (some out.book);
          next_order_id = if msg.order_id == 0 then add64 e.next_order_id 1 else e.next_order_id;
        })
        out.reports)
]

unfoldable pub put_book : Engine → SymbolId → Option (Book × Bool) → Option Engine
put_book e id none = none
put_book e id (some (b, _)) = some (record e { books = update e.books id (some b) })

-- The `switch`; a type with no enumerator falls through it.
unfoldable pub dispatch : MsgType → Engine → Book → MarketDataMsg → Option Engine
unfolding handle_new put_book
dispatch new_order e b msg = handle_new e b msg
dispatch cancel_order e b msg = put_book e msg.symbol (Orders.cancel_order b msg.order_id)
dispatch modify_order e b msg = put_book e msg.symbol (Orders.modify_order b msg.order_id msg.qty)
dispatch heartbeat e b msg = some e
dispatch (MsgType.unnamed _) e b msg = some e

-- `none` means that a loop of the book did not end.
unfoldable pub process_message : Engine → MarketDataMsg → Option Engine
unfolding dispatch
process_message e msg =
    if leb max_symbols msg.symbol
    then some e
    else elim (e.books msg.symbol) [ none ↦ some e | some b ↦ dispatch msg.msg_type e b msg ]

-- One round of the busy-poll loop.
unfoldable pub run_round : Engine → Option Engine
unfolding process_message
run_round e =
    let (q, item) = try_pop queue_depth e.inbound in
    elim item [
      | none ↦ some e
      | some msg ↦ elim (process_message (record e { inbound = q }) msg) [
        | none ↦ none
        | some e' ↦ some (record e' { stat_messages = add64 e'.stat_messages 1 })
      ]
    ]

-- The drain on shutdown, which does not count messages; fuel for what the ring holds.
unfoldable pub drain : ℕ → Engine → Option Engine
unfolding process_message
drain zero e = none
drain (suc n) e =
    let (q, item) = try_pop queue_depth e.inbound in
    elim item [
      | none ↦ some e
      | some msg ↦ elim (process_message (record e { inbound = q }) msg) [
        | none ↦ none
        | some e' ↦ drain n e'
      ]
    ]

-- `run_loop` where `running_` is seen true `rounds` times.
unfoldable pub run_loop : ℕ → Engine → Option Engine
unfolding run_round drain
run_loop zero e = drain (queue_depth + 1) e
run_loop (suc n) e = elim (run_round e) [ none ↦ none | some e' ↦ run_loop n e' ]
