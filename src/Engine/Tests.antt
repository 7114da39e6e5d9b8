-- ===== src/Engine/Tests.antt =====
-- A cancel for symbol 3 in an engine that has a book for every symbol.
use options_engine.Prelude.{◌≡◌, refl, true, some, arith}
use options_engine.Prelude.Int.{pos}
use options_engine.Prelude.Arrays.{update}
use options_engine.Types.{MarketDataMsg, ExecutionReport, ExecType, buy, limit, cancel_order}
use options_engine.OrderBook.Levels.{Levels}
use options_engine.OrderBook.Index
use options_engine.OrderBook.State.{Book}
use options_engine.OrderBook.Orders
use options_engine.Engine.{Engine, process_message}
use options_engine.Engine.Isolation.{process_message-other}

abbrev no_levels : Levels
no_levels = record {
  prices = λ _. pos 0;
  qtys = λ _. 0;
  order_counts = λ _. 0;
  head_idxs = λ _. 0;
  tail_idxs = λ _. 0;
  count = 0;
}

abbrev book : Book
book = record {
  match_cb = true;
  symbol = 3;
  bids = no_levels;
  asks = no_levels;
  slots = record {
    ids = λ _. 0;
    qtys = λ _. 0;
    nexts = λ _. 0;
    prevs = λ _. 0;
    free_nexts = λ _. 0;
    prices = λ _. pos 0;
    accounts = λ _. 0;
    free_head = 0;
    used = 0;
  };
  index = Index.init;
  stat_orders = 0;
  stat_matches = 0;
  stat_cancelled = 0;
  stat_rejected = 0;
  stat_self_trade_prevented = 0;
}

abbrev msg : MarketDataMsg
msg = record {
  seq = 1;
  order_id = 42;
  price = pos 0;
  qty = 0;
  symbol = 3;
  side = buy;
  msg_type = cancel_order;
  order_type = limit;
}

abbrev report : ExecutionReport
report = record {
  order_id = 0;
  contra_order_id = 0;
  exec_price = pos 0;
  exec_qty = 0;
  leaves_qty = 0;
  symbol = 0;
  side = buy;
  exec_type = ExecType.fill;
}

abbrev engine : Engine
engine = record {
  inbound = record { buffer = λ _. msg; write_pos = 0; read_pos = 0 };
  outbound = record { buffer = λ _. report; write_pos = 0; read_pos = 0 };
  books = λ _. some book;
  running = true;
  stat_messages = 0;
  stat_matches = 0;
  next_order_id = 1;
}

abbrev after : Engine
after = record engine { books = update engine.books 3 (some book) }

cancelled : process_message engine msg ≡ some after
unfolding process_message Orders.cancel_order Index.lookup Index.init
cancelled = refl

process_message-other_example : after.books 4 ≡ some book
process_message-other_example = process_message-other engine msg 4 (omega arith) cancelled
