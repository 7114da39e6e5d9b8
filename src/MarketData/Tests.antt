-- ===== src/MarketData/Tests.antt =====
-- The feed's theorems on concrete datagrams.
use options_engine.Prelude.{◌≡◌, ◌↔◌, refl, true, some, [], ◌∷◌, ◌++◌, arith}
use options_engine.Spsc.{construct}
use options_engine.MarketData.Wire.{WireHeader, WireNewOrder, magic_word, read_header, blank_msg}
use options_engine.MarketData.Wire.RoundTrip.{
  header_bytes, HeaderFits, read_header-header_bytes, NewOrderFits, new_order_msg,
}
use options_engine.MarketData.Ingest.{Ingestion, fault, note_sequence, deliver, ingest}
use options_engine.MarketData.Ingest.Outcomes.{
  Overstated, Counted, new_order_datagram, ingest-fault_iff, ingest-Counted,
  ingest-new_order_datagram,
}
use options_engine.MarketData.Ingest.Gaps.{note_all, breaks, note_all-gaps}

abbrev fresh : Ingestion
fresh = record {
  outbound = construct (λ _. blank_msg 0);
  gap_cb = true;
  gaps = [];
  expected_seq = 0;
  stat_ingested = 0;
  stat_gaps = 0;
  stat_errors = 0;
}

abbrev bare_header : WireHeader
bare_header = record {
  magic = magic_word;
  version = 1;
  msg_type = 99;
  seq_num = 1;
  payload_len = 8;
}

bare_header-HeaderFits : HeaderFits bare_header
bare_header-HeaderFits = record {
  magic = omega arith;
  version = omega arith;
  msg_type = omega arith;
  seq_num = omega arith;
  payload_len = omega arith;
}

read_header-header_bytes_example : read_header (header_bytes bare_header ++ []) ≡ bare_header
read_header-header_bytes_example = read_header-header_bytes bare_header [] bare_header-HeaderFits

-- A heartbeat that announces 8 bytes more than it has.
ingest-fault_iff_example :
    (ingest fresh (header_bytes bare_header) ≡ fault) ↔ Overstated (header_bytes bare_header)
ingest-fault_iff_example = ingest-fault_iff fresh (header_bytes bare_header)

abbrev buy_ten : WireNewOrder
buy_ten = record {
  order_id = 42;
  price_fp = 1000000;
  qty = 10;
  symbol_id = 3;
  side = 66;
  order_type = 0;
}

buy_ten-NewOrderFits : NewOrderFits buy_ten
buy_ten-NewOrderFits = record {
  order_id = omega arith;
  price_fp = omega arith;
  qty = omega arith;
  symbol_id = omega arith;
  side = omega arith;
  order_type = omega arith;
}

ingest-Counted_example :
    Counted fresh (new_order_datagram 5 buy_ten) (ingest fresh (new_order_datagram 5 buy_ten))
ingest-Counted_example = ingest-Counted fresh (new_order_datagram 5 buy_ten)

ingest-new_order_datagram_example :
    ingest fresh (new_order_datagram 5 buy_ten)
    ≡ deliver (note_sequence fresh 5) (some (new_order_msg 5 buy_ten))
ingest-new_order_datagram_example =
    ingest-new_order_datagram fresh 5 buy_ten (omega arith) buy_ten-NewOrderFits

two_breaks : breaks 5 (6 ∷ 9 ∷ 10 ∷ 2 ∷ []) ≡ 2
unfolding breaks
two_breaks = refl

note_all-gaps_example :
    (note_all fresh (5 ∷ 6 ∷ 9 ∷ 10 ∷ 2 ∷ [])).stat_gaps ≡ breaks 5 (6 ∷ 9 ∷ 10 ∷ 2 ∷ [])
note_all-gaps_example =
    note_all-gaps fresh 5 (6 ∷ 9 ∷ 10 ∷ 2 ∷ []) refl refl
      (omega arith, (omega arith, (omega arith, (omega arith, (omega arith, tt))))) (omega arith)
