-- ===== src/Replay/Tests.antt =====
-- The trace's and the replay's theorems on concrete events.
use options_engine.Prelude.{
  ℕ, zero, suc, ◌+◌, ◌≤◌, ◌≡◌, refl, Bool, true, false, some, List, [], ◌∷◌, arith, min,
}
use options_engine.Prelude.Int.{pos}
use options_engine.Prelude.Words.{add64}
use options_engine.Types.{MarketDataMsg, sell, new_order, fok}
use options_engine.Replay.Trace.{
  TraceHeader, TraceEvent, trace_magic, trace_event_to_msg, msg_to_trace_event,
}
use options_engine.Replay.Trace.RoundTrip.{trace_event_to_msg-msg_to_trace_event}
use options_engine.Replay.Run.{ReplayResult, replay, replay_loop, replay_event}
use options_engine.Replay.Run.Counts.{replay-counts}

abbrev msg : MarketDataMsg
msg = record {
  seq = 1;
  order_id = 42;
  price = pos 1000000;
  qty = 10;
  symbol = 3;
  side = sell;
  msg_type = new_order;
  order_type = fok;
}

trace_event_to_msg-msg_to_trace_event_example : trace_event_to_msg (msg_to_trace_event 99 msg) ≡ msg
trace_event_to_msg-msg_to_trace_event_example = trace_event_to_msg-msg_to_trace_event 99 msg tt tt

-- A record whose side byte is neither 0 nor 1.
abbrev odd_event : TraceEvent
odd_event = record (msg_to_trace_event 99 msg) { side = 7 }

-- The engine takes the first event and no other, and reports at each.
abbrev first_only : ℕ → MarketDataMsg → Bool
first_only zero m = true
first_only (suc i) m = false

abbrev always : ℕ → Bool
always i = true

abbrev header : TraceHeader
header = record {
  magic = trace_magic;
  version = 1;
  symbol_count = 0;
  event_count = 3;
  start_ts_ns = 0;
}

-- Three events are announced, and two can be read.
abbrev events : List TraceEvent
events = msg_to_trace_event 1 msg ∷ odd_event ∷ []

abbrev result : ReplayResult
result = record { events_replayed = 1; events_skipped = 1; matches_generated = 3 }

replay_runs :
    replay first_only always 0
      (some (header, events))
      2
      (record { events_replayed = 0; events_skipped = 0; matches_generated = 0 })
    ≡ some result
unfolding replay replay_loop replay_event add64
replay_runs = refl

replay-counts_example : (trace_magic ≡ trace_magic) × (1 + 1 ≡ min 3 2) × (3 ≤ 1 + 2)
replay-counts_example = replay-counts first_only always 0 header events 2 (omega arith) replay_runs
