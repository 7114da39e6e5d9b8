-- ===== src/MarketData/Ingest.antt =====
-- src/core/market_data.cpp, `MarketDataIngestion`: one datagram into the engine's queue.
-- `fault` is undefined behaviour: `subspan` called with more bytes than there are.
pub mod Decoding
pub mod Outcomes
pub mod Gaps
use options_engine.Prelude.{
  ℕ, ◌+◌, ◌-◌, ◌^◌, Bool, true, false, ◌&&◌, not, List, [], ◌∷◌, Option, none, some, ltb, ◌==◌,
  if◌then◌else◌, length, take, drop,
}
use options_engine.Prelude.Words.{add64}
use options_engine.Types.{MarketDataMsg, heartbeat}
use options_engine.Spsc.{Ring, try_push}
use options_engine.MarketData.Wire.{
  WireHeader, header_size, magic_word, read_header, blank_msg, decode_new_order, decode_cancel,
  decode_modify,
}

abbrev pub queue_depth : ℕ
queue_depth = 65536

-- `gap_cb` tells whether a gap callback is set, and `gaps` lists what it was called with.
pub record Ingestion : Type 0 where
  pub outbound : Ring MarketDataMsg
  pub gap_cb : Bool
  pub gaps : List (ℕ × ℕ)
  pub expected_seq : ℕ
  pub stat_ingested : ℕ
  pub stat_gaps : ℕ
  pub stat_errors : ℕ

pub data Ingested : Type 0 where
  returned : Ingestion → ℕ → Ingested
  fault : Ingested

abbrev pub parse_error : Ingestion → Ingested
parse_error s = returned (record s { stat_errors = add64 s.stat_errors 1 }) 0

-- Gap detection, and the number expected next.
unfoldable pub note_sequence : Ingestion → ℕ → Ingestion
note_sequence s seq =
    let gap = not (s.expected_seq == 0) && not (seq == s.expected_seq) in
    record s {
      stat_gaps = if gap then add64 s.stat_gaps 1 else s.stat_gaps;
      gaps = if gap && s.gap_cb then (s.expected_seq, seq) ∷ s.gaps else s.gaps;
      expected_seq = add64 seq 1;
    }

-- The `switch` on the wire's message type, with `none` for a type unknown or a payload too short.
unfoldable pub decode : WireHeader → List ℕ → Option MarketDataMsg
decode hdr payload =
    let msg = blank_msg hdr.seq_num in
    if hdr.msg_type == 1
    then decode_new_order payload msg
    else if hdr.msg_type == 2
    then decode_cancel payload msg
    else if hdr.msg_type == 3
    then decode_modify payload msg
    else if hdr.msg_type == 99
    then some (record msg { msg_type = heartbeat })
    else none

-- The decoded message into the queue; a full queue is no error, and counts nothing.
unfoldable pub deliver : Ingestion → Option MarketDataMsg → Ingested
deliver s none = parse_error s
deliver s (some msg) =
    let (q, pushed) = try_push queue_depth s.outbound msg in
    if pushed
    then returned (record s { outbound = q; stat_ingested = add64 s.stat_ingested 1 }) 1
    else returned s 0

-- `data.subspan(offset, count)`, whose precondition is `offset + count <= data.size()`.
unfoldable pub subspan : List ℕ → ℕ → ℕ → Option (List ℕ)
subspan bytes offset count =
    if ltb (length bytes) (offset + count) then none else some (take count (drop offset bytes))

unfoldable pub ingest : Ingestion → List ℕ → Ingested
unfolding note_sequence decode deliver subspan
ingest s bytes =
    let hdr = read_header bytes in
    let s' = note_sequence s hdr.seq_num in
    if ltb (length bytes) header_size
    then parse_error s
    else if not (hdr.magic == magic_word)
    then parse_error s
    else elim (subspan bytes header_size hdr.payload_len) [
      | none ↦ fault
      | some payload ↦
          if ltb (length payload) hdr.payload_len
          then parse_error s'
          else deliver s' (decode hdr payload)
    ]

-- `inject`
unfoldable pub inject : Ingestion → MarketDataMsg → Ingestion × Bool
inject s msg =
    let (q, pushed) = try_push queue_depth s.outbound msg in (record s { outbound = q }, pushed)

unfoldable pub reset_sequence : Ingestion → Ingestion
reset_sequence s = record s { expected_seq = 0 }
