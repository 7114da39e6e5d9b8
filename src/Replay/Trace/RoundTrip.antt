-- ===== src/Replay/Trace/RoundTrip.antt =====
-- Messages and trace events, each made of the other.
use options_engine.Prelude.{
  ℕ, ◌+◌, ◌<◌, ◌≡◌, refl, ap, sym, ◌≢◌, Bool, true, false, arith, ◌==◌, if◌then◌else◌, List, [],
  ◌∷◌, ◌++◌, length, length-append,
}
use mathlib.Core.Path.{subst}
use options_engine.Prelude.Words.{u64_mod, add64, add64_exact}
use options_engine.Types.{
  Side, buy, sell, is_buy, OrderType, limit, market, ioc, fok, MsgType, new_order, cancel_order,
  modify_order, heartbeat, MarketDataMsg, order_type_of, byte_of_order_type, msg_type_of,
  byte_of_msg_type,
}
use options_engine.Replay.Trace.{
  TraceEvent, TraceWriter, trace_event_to_msg, msg_to_trace_event, write, close, create,
}

-- An enumerator, not a byte that has none.
abbrev pub HasOrderType : OrderType → Type 0
HasOrderType (OrderType.unnamed b) = (b ≢ 0) × (b ≢ 1) × (b ≢ 2) × (b ≢ 3)
HasOrderType t = Unit {0}

abbrev pub HasMsgType : MsgType → Type 0
HasMsgType (MsgType.unnamed b) = (b ≢ 0) × (b ≢ 1) × (b ≢ 2) × (b ≢ 3)
HasMsgType t = Unit {0}

order_type-byte : (t : OrderType) → HasOrderType t → order_type_of (byte_of_order_type t) ≡ t
order_type-byte limit h = refl
order_type-byte market h = refl
order_type-byte ioc h = refl
order_type-byte fok h = refl
order_type-byte (OrderType.unnamed b) h = ground arith

msg_type-byte : (t : MsgType) → HasMsgType t → msg_type_of (byte_of_msg_type t) ≡ t
msg_type-byte new_order h = refl
msg_type-byte cancel_order h = refl
msg_type-byte modify_order h = refl
msg_type-byte heartbeat h = refl
msg_type-byte (MsgType.unnamed b) h = ground arith

side-byte : (s : Side) → (if (if is_buy s then 0 else 1) == 0 then buy else sell) ≡ s
side-byte buy = refl
side-byte sell = refl

byte-order_type : (b : ℕ) → byte_of_order_type (order_type_of b) ≡ b
byte-order_type b = ground arith

byte-msg_type : (b : ℕ) → byte_of_msg_type (msg_type_of b) ≡ b
byte-msg_type b = ground arith

-- A message whose two type values are enumerators, or bytes that no enumerator has, is read back from
-- a trace event as it was written.
pub trace_event_to_msg-msg_to_trace_event :
    (ts_ns : ℕ) (m : MarketDataMsg)
    → HasOrderType m.order_type
    → HasMsgType m.msg_type
    → trace_event_to_msg (msg_to_trace_event ts_ns m) ≡ m
unfolding trace_event_to_msg msg_to_trace_event
trace_event_to_msg-msg_to_trace_event ts_ns m h k = λ i. record {
  seq = m.seq;
  order_id = m.order_id;
  price = m.price;
  qty = m.qty;
  symbol = m.symbol;
  side = side-byte m.side i;
  msg_type = msg_type-byte m.msg_type k i;
  order_type = order_type-byte m.order_type h i;
}

-- An event read and written again at its own time is the same, but that any side byte other than 0
-- becomes 1.
pub msg_to_trace_event-trace_event_to_msg :
    (e : TraceEvent)
    → msg_to_trace_event e.timestamp_ns (trace_event_to_msg e)
      ≡ record e { side = if e.side == 0 then 0 else 1 }
unfolding trace_event_to_msg msg_to_trace_event
msg_to_trace_event-trace_event_to_msg e = λ i. record {
  timestamp_ns = e.timestamp_ns;
  seq = e.seq;
  order_id = e.order_id;
  price = e.price;
  qty = e.qty;
  symbol = e.symbol;
  side = side-again e.side i;
  order_type = byte-order_type e.order_type i;
  msg_type = byte-msg_type e.msg_type i;
}
  where
    side-again :
        (b : ℕ)
        → ◌≡◌ {A = ℕ}
            (if is_buy (if b == 0 then buy else sell) then 0 else 1)
            (if b == 0 then 0 else 1)
    side-again b = ground arith

-- The messages written, each at its time.
pub write_all : TraceWriter → List (ℕ × MarketDataMsg) → TraceWriter
write_all w [] = w
write_all w ((ts, m) ∷ ms) = write_all (write w ts m).0 ms

abbrev put_event : ℕ → MarketDataMsg → TraceWriter → TraceWriter
put_event ts m w = record w {
  events = w.events ++ msg_to_trace_event ts m ∷ [];
  event_count = add64 w.event_count 1;
}

choose : {A : Type 0} (b : Bool) (x y : A) → b ≡ true → ◌≡◌ {A = A} (if b then x else y) x
choose true x y e = refl
choose false x y e = cc

write-open :
    (w : TraceWriter) (ts : ℕ) (m : MarketDataMsg)
    → w.is_open ≡ true
    → (write w ts m).0 ≡ put_event ts m w
unfolding write
write-open w ts m o =
    ap (λ (x : TraceWriter × Bool). x.0) (choose w.is_open (put_event ts m w, true) (w, false) o)

IsCounted : TraceWriter → ℕ → Type 0
IsCounted w n = (w.is_open ≡ true) × (w.event_count ≡ length w.events) × (length w.events ≡ n)

write_all-count :
    (w : TraceWriter) (ms : List (ℕ × MarketDataMsg)) (n : ℕ)
    → IsCounted w n
    → n + length ms < u64_mod
    → IsCounted (write_all w ms) (n + length ms)
unfolding write_all IsCounted
write_all-count w [] n (o, e, k) h = (o, e, omega (arith, k))
write_all-count w ((ts, m) ∷ ms) n (o, e, k) h =
    let len = length-append w.events (msg_to_trace_event ts m ∷ []) in
    let one = add64_exact w.event_count 1 (omega (arith, e, k)) in
    let next : IsCounted (put_event ts m w) (n + 1) =
      (o, omega (arith, one, len, e), omega (arith, len, k)) in
    let (a, b, c) = write_all-count (put_event ts m w) ms (n + 1) next (omega arith) in
    subst (λ x. IsCounted (write_all x ms) (n + length ((ts, m) ∷ ms))) (sym (write-open w ts m o))
      (a, b, omega (arith, c))

put_count : TraceWriter → TraceWriter
put_count w = record w {
  header = record (w.header) { event_count = w.event_count };
  is_open = false;
}

-- Closing the writer leaves a header whose count is the number of records, one for each message written,
-- when fewer than 2 ^ 64 messages are written to an open file.
pub close-count :
    (ms : List (ℕ × MarketDataMsg))
    → length ms < u64_mod
    → ((close (write_all (create true) ms)).header.event_count
        ≡ length (close (write_all (create true) ms)).events)
      × (length (close (write_all (create true) ms)).events ≡ length ms)
unfolding close create IsCounted put_count
close-count ms h =
    let w = write_all (create true) ms in
    let (o, e, n) = write_all-count (create true) ms 0 (refl, refl, refl) (omega arith) in
    subst (λ x. (x.header.event_count ≡ length x.events) × (length x.events ≡ length ms))
      (sym (choose w.is_open (put_count w) w o)) (e, omega (arith, n))
