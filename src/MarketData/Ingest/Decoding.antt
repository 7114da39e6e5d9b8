-- ===== src/MarketData/Ingest/Decoding.antt =====
-- What the payload of each message type decodes to.
use options_engine.Prelude.{
  ℕ, ◌≤◌, ◌<◌, ◌≡◌, ◌≢◌, ◌⊎◌, inl, inr, true, false, List, Option, none, some, arith, ltb, ◌==◌,
  if◌then◌else◌, length,
}
use options_engine.Prelude.Int.{pos}
use options_engine.Types.{
  MarketDataMsg, buy, sell, limit, new_order, cancel_order, modify_order, heartbeat, order_type_of,
}
use options_engine.MarketData.Wire.{
  WireHeader, field_at, to_int64, read_new_order, read_cancel_order, read_modify_order,
  decode_new_order, decode_cancel, decode_modify,
}
use options_engine.MarketData.Ingest.{decode}

-- The bytes that a message type needs, of those that there are.
abbrev pub wire_size : ℕ → Option ℕ
wire_size t =
    if t == 1
    then some 24
    else if t == 2
    then some 16
    else if t == 3
    then some 16
    else if t == 99
    then some 0
    else none

-- The outcome of decoding, from the bytes of the payload.
pub data Decodes (hdr : WireHeader) (payload : List ℕ) : Option MarketDataMsg → Type 0 where
  as_new_order :
      hdr.msg_type ≡ 1
      → 24 ≤ length payload
      → Decodes hdr payload (
          some (record {
            seq = hdr.seq_num;
            order_id = field_at payload 0 8;
            price = to_int64 (field_at payload 8 8);
            qty = field_at payload 16 4;
            symbol = field_at payload 20 2;
            side = if field_at payload 22 1 == 0 then buy else sell;
            msg_type = new_order;
            order_type = order_type_of (field_at payload 23 1);
          }))
  as_cancel :
      hdr.msg_type ≡ 2
      → 16 ≤ length payload
      → Decodes hdr payload (
          some (record {
            seq = hdr.seq_num;
            order_id = field_at payload 0 8;
            price = pos 0;
            qty = 0;
            symbol = field_at payload 8 2;
            side = buy;
            msg_type = cancel_order;
            order_type = limit;
          }))
  as_modify :
      hdr.msg_type ≡ 3
      → 16 ≤ length payload
      → Decodes hdr payload (
          some (record {
            seq = hdr.seq_num;
            order_id = field_at payload 0 8;
            price = pos 0;
            qty = field_at payload 8 4;
            symbol = field_at payload 12 2;
            side = buy;
            msg_type = modify_order;
            order_type = limit;
          }))
  as_heartbeat :
      hdr.msg_type ≡ 99
      → Decodes hdr payload (
          some (record {
            seq = hdr.seq_num;
            order_id = 0;
            price = pos 0;
            qty = 0;
            symbol = 0;
            side = buy;
            msg_type = heartbeat;
            order_type = limit;
          }))
  too_short :
      (n : ℕ) → wire_size hdr.msg_type ≡ some n → length payload < n → Decodes hdr payload none
  unknown : wire_size hdr.msg_type ≡ none → Decodes hdr payload none

ltb-cases : (a b : ℕ) → ((a < b) × (ltb a b ≡ true)) ⊎ ((b ≤ a) × (ltb a b ≡ false))
ltb-cases a b = ground arith

test-cases : (a b : ℕ) → ((a ≡ b) × ((a == b) ≡ true)) ⊎ ((a ≢ b) × ((a == b) ≡ false))
test-cases a b = ground arith

-- `decode` accepts exactly the four message types with payloads long enough, and reads each field off its
-- bytes.
pub decode-Decodes :
    (hdr : WireHeader) (payload : List ℕ) → Decodes hdr payload (decode hdr payload)
unfolding decode decode_new_order decode_cancel decode_modify read_new_order read_cancel_order
    read_modify_order
decode-Decodes hdr payload = elim (test-cases hdr.msg_type 1) [
  | inl (e, t) ↦ elim (ltb-cases (length payload) 24) [
    | inl (h, u) ↦ rw (t, u) (too_short 24 (rw t) h)
    | inr (h, u) ↦ rw (t, u) (as_new_order e h)
  ]
  | inr (e, t) ↦ elim (test-cases hdr.msg_type 2) [
    | inl (e2, t2) ↦ elim (ltb-cases (length payload) 16) [
      | inl (h, u) ↦ rw (t, t2, u) (too_short 16 (rw (t, t2)) h)
      | inr (h, u) ↦ rw (t, t2, u) (as_cancel e2 h)
    ]
    | inr (e2, t2) ↦ elim (test-cases hdr.msg_type 3) [
      | inl (e3, t3) ↦ elim (ltb-cases (length payload) 16) [
        | inl (h, u) ↦ rw (t, t2, t3, u) (too_short 16 (rw (t, t2, t3)) h)
        | inr (h, u) ↦ rw (t, t2, t3, u) (as_modify e3 h)
      ]
      | inr (e3, t3) ↦ elim (test-cases hdr.msg_type 99) [
        | inl (e4, t4) ↦ rw (t, t2, t3, t4) (as_heartbeat e4)
        | inr (e4, t4) ↦ rw (t, t2, t3, t4) (unknown (rw (t, t2, t3, t4)))
      ]
    ]
  ]
]
