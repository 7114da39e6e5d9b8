-- ===== src/Replay/Trace.antt =====
-- include/core/replay.hpp: trace events and the writer. Padding is zero and is left out.
pub mod RoundTrip
use options_engine.Prelude.{ℕ, ◌+◌, Bool, true, false, List, [], ◌∷◌, ◌++◌, ◌==◌, if◌then◌else◌}
use options_engine.Prelude.Words.{add64}
use options_engine.Types.{
  Price, Side, buy, sell, is_buy, MarketDataMsg, order_type_of, byte_of_order_type, msg_type_of,
  byte_of_msg_type,
}

pub record TraceHeader : Type 0 where
  pub magic : ℕ
  pub version : ℕ
  pub symbol_count : ℕ
  pub event_count : ℕ
  pub start_ts_ns : ℕ

pub record TraceEvent : Type 0 where
  pub timestamp_ns : ℕ
  pub seq : ℕ
  pub order_id : ℕ
  pub price : Price
  pub qty : ℕ
  pub symbol : ℕ
  pub side : ℕ
  pub order_type : ℕ
  pub msg_type : ℕ

abbrev pub trace_magic : ℕ
trace_magic = 0x5452_4143

unfoldable pub trace_event_to_msg : TraceEvent → MarketDataMsg
trace_event_to_msg e = record {
  seq = e.seq;
  order_id = e.order_id;
  price = e.price;
  qty = e.qty;
  symbol = e.symbol;
  side = if e.side == 0 then buy else sell;
  msg_type = msg_type_of e.msg_type;
  order_type = order_type_of e.order_type;
}

unfoldable pub msg_to_trace_event : ℕ → MarketDataMsg → TraceEvent
msg_to_trace_event ts_ns m = record {
  timestamp_ns = ts_ns;
  seq = m.seq;
  order_id = m.order_id;
  price = m.price;
  qty = m.qty;
  symbol = m.symbol;
  side = if is_buy m.side then 0 else 1;
  order_type = byte_of_order_type m.order_type;
  msg_type = byte_of_msg_type m.msg_type;
}

-- A `TraceWriter`: whether its file is open, the file's header and records, and its count.
pub record TraceWriter : Type 0 where
  pub is_open : Bool
  pub header : TraceHeader
  pub events : List TraceEvent
  pub event_count : ℕ

unfoldable pub create : Bool → TraceWriter
create opened = record {
  is_open = opened;
  header = record {
    magic = trace_magic;
    version = 1;
    symbol_count = 0;
    event_count = 0;
    start_ts_ns = 0;
  };
  events = [];
  event_count = 0;
}

unfoldable pub write : TraceWriter → ℕ → MarketDataMsg → TraceWriter × Bool
unfolding msg_to_trace_event
write w ts_ns m =
    if w.is_open
    then (
      record w {
        events = w.events ++ msg_to_trace_event ts_ns m ∷ [];
        event_count = add64 w.event_count 1;
      },
      true,
    )
    else (w, false)

-- The destructor patches the count into the header.
unfoldable pub close : TraceWriter → TraceWriter
close w =
    if w.is_open
    then record w { header = record (w.header) { event_count = w.event_count }; is_open = false }
    else w
