-- ===== src/MarketData/Wire.antt =====
-- include/core/market_data.hpp, the packed wire structs, and the decoders of
-- src/core/market_data.cpp. A `memcpy` into a packed struct reads its fields little-endian.
pub mod RoundTrip
use options_engine.Prelude.{
  ℕ, zero, suc, ◌+◌, ◌-◌, ◌*◌, ◌^◌, Bool, List, [], ◌∷◌, Option, none, some, ltb, leb, ◌==◌,
  if◌then◌else◌, length, take, drop,
}
use options_engine.Prelude.Int.{ℤ, pos, negsuc}
use options_engine.Types.{
  Price, Side, buy, sell, MsgType, new_order, cancel_order, modify_order, OrderType, limit,
  order_type_of, MarketDataMsg,
}

-- The number that bytes stand for, the least significant first.
abbrev pub le_word : List ℕ → ℕ
le_word [] = 0
le_word (b ∷ bs) = b + 256 * le_word bs

-- The field of `width` bytes at `offset`.
abbrev pub field_at : List ℕ → ℕ → ℕ → ℕ
field_at bytes offset width = le_word (take width (drop offset bytes))

-- `static_cast<int64_t>`
unfoldable pub to_int64 : ℕ → ℤ
to_int64 w = if ltb w (2 ^ 63) then pos w else negsuc (2 ^ 64 - w - 1)

pub record WireHeader : Type 0 where
  pub magic : ℕ
  pub version : ℕ
  pub msg_type : ℕ
  pub seq_num : ℕ
  pub payload_len : ℕ

pub record WireNewOrder : Type 0 where
  pub order_id : ℕ
  pub price_fp : ℕ
  pub qty : ℕ
  pub symbol_id : ℕ
  pub side : ℕ
  pub order_type : ℕ

pub record WireCancelOrder : Type 0 where
  pub order_id : ℕ
  pub symbol_id : ℕ

pub record WireModifyOrder : Type 0 where
  pub order_id : ℕ
  pub new_qty : ℕ
  pub symbol_id : ℕ

-- The `sizeof` of the packed structs.
abbrev pub header_size : ℕ
header_size = 20

abbrev pub new_order_size : ℕ
new_order_size = 24

abbrev pub cancel_order_size : ℕ
cancel_order_size = 16

abbrev pub modify_order_size : ℕ
modify_order_size = 16

abbrev pub magic_word : ℕ
magic_word = 0xfeed_1234

unfoldable pub read_header : List ℕ → WireHeader
read_header bytes = record {
  magic = field_at bytes 0 4;
  version = field_at bytes 4 2;
  msg_type = field_at bytes 6 2;
  seq_num = field_at bytes 8 8;
  payload_len = field_at bytes 16 4;
}

unfoldable pub read_new_order : List ℕ → WireNewOrder
read_new_order bytes = record {
  order_id = field_at bytes 0 8;
  price_fp = field_at bytes 8 8;
  qty = field_at bytes 16 4;
  symbol_id = field_at bytes 20 2;
  side = field_at bytes 22 1;
  order_type = field_at bytes 23 1;
}

unfoldable pub read_cancel_order : List ℕ → WireCancelOrder
read_cancel_order bytes = record { order_id = field_at bytes 0 8; symbol_id = field_at bytes 8 2 }

unfoldable pub read_modify_order : List ℕ → WireModifyOrder
read_modify_order bytes = record {
  order_id = field_at bytes 0 8;
  new_qty = field_at bytes 8 4;
  symbol_id = field_at bytes 12 2;
}

-- `MarketDataMsg msg{}; msg.seq = hdr.seq_num;`
abbrev pub blank_msg : ℕ → MarketDataMsg
blank_msg seq = record {
  seq = seq;
  order_id = 0;
  price = pos 0;
  qty = 0;
  symbol = 0;
  side = buy;
  msg_type = new_order;
  order_type = limit;
}

-- The message filled in, or `none` for a payload too short.
unfoldable pub decode_new_order : List ℕ → MarketDataMsg → Option MarketDataMsg
unfolding read_new_order to_int64
decode_new_order payload out =
    let w = read_new_order payload in
    if ltb (length payload) new_order_size
    then none
    else some (record out {
      msg_type = new_order;
      order_id = w.order_id;
      price = to_int64 w.price_fp;
      qty = w.qty;
      symbol = w.symbol_id;
      side = if w.side == 0 then buy else sell;
      order_type = order_type_of w.order_type;
    })

unfoldable pub decode_cancel : List ℕ → MarketDataMsg → Option MarketDataMsg
unfolding read_cancel_order
decode_cancel payload out =
    let w = read_cancel_order payload in
    if ltb (length payload) cancel_order_size
    then none
    else some (record out { msg_type = cancel_order; order_id = w.order_id; symbol = w.symbol_id })

unfoldable pub decode_modify : List ℕ → MarketDataMsg → Option MarketDataMsg
unfolding read_modify_order
decode_modify payload out =
    let w = read_modify_order payload in
    if ltb (length payload) modify_order_size
    then none
    else some (record out {
      msg_type = modify_order;
      order_id = w.order_id;
      qty = w.new_qty;
      symbol = w.symbol_id;
    })
