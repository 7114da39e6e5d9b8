-- ===== src/MarketData/Wire/RoundTrip.antt =====
-- The wire structs laid out little-endian, and what the decoders make of them.
use native.Mathlib.Nat.{pow-suc}
use options_engine.Prelude.{
  ℕ, zero, suc, ◌/◌, ◌%◌, ◌^◌, ◌<◌, ◌≡◌, ap, List, [], ◌∷◌, ◌++◌, some, arith, ◌==◌, if◌then◌else◌,
}
use options_engine.Types.{buy, sell, new_order, order_type_of, MarketDataMsg}
use options_engine.MarketData.Wire.{
  le_word, to_int64, WireHeader, WireNewOrder, read_header, read_new_order, blank_msg,
  decode_new_order,
}

-- The `k` bytes of a number, the least significant first.
abbrev pub le_bytes : ℕ → ℕ → List ℕ
le_bytes zero n = []
le_bytes (suc k) n = n % 256 ∷ le_bytes k (n / 256)

pub le_word-le_bytes : (k n : ℕ) → n < 256 ^ k → le_word (le_bytes k n) ≡ n
le_word-le_bytes zero n h = omega arith
le_word-le_bytes (suc k) n h =
    let p = pow-suc 256 k in
    let ih = le_word-le_bytes k (n / 256) (omega (arith, p)) in omega (arith, ih)

abbrev pub header_bytes : WireHeader → List ℕ
header_bytes h =
    le_bytes 4 h.magic
    ++ (le_bytes 2 h.version
        ++ (le_bytes 2 h.msg_type ++ (le_bytes 8 h.seq_num ++ le_bytes 4 h.payload_len)))

abbrev pub new_order_bytes : WireNewOrder → List ℕ
new_order_bytes w =
    le_bytes 8 w.order_id
    ++ (le_bytes 8 w.price_fp
        ++ (le_bytes 4 w.qty
            ++ (le_bytes 2 w.symbol_id ++ (le_bytes 1 w.side ++ le_bytes 1 w.order_type))))

-- Every field fits its width.
pub record HeaderFits (h : WireHeader) : Type 0 where
  pub magic : h.magic < 256 ^ 4
  pub version : h.version < 256 ^ 2
  pub msg_type : h.msg_type < 256 ^ 2
  pub seq_num : h.seq_num < 256 ^ 8
  pub payload_len : h.payload_len < 256 ^ 4

pub record NewOrderFits (w : WireNewOrder) : Type 0 where
  pub order_id : w.order_id < 256 ^ 8
  pub price_fp : w.price_fp < 256 ^ 8
  pub qty : w.qty < 256 ^ 4
  pub symbol_id : w.symbol_id < 256 ^ 2
  pub side : w.side < 256 ^ 1
  pub order_type : w.order_type < 256 ^ 1

-- `read_header` gives back the fields of a header laid out in front of anything.
pub read_header-header_bytes :
    (h : WireHeader) (rest : List ℕ) → HeaderFits h → read_header (header_bytes h ++ rest) ≡ h
unfolding read_header
read_header-header_bytes h rest v = λ i. record {
  magic = le_word-le_bytes 4 h.magic v.magic i;
  version = le_word-le_bytes 2 h.version v.version i;
  msg_type = le_word-le_bytes 2 h.msg_type v.msg_type i;
  seq_num = le_word-le_bytes 8 h.seq_num v.seq_num i;
  payload_len = le_word-le_bytes 4 h.payload_len v.payload_len i;
}

read_new_order-bytes : (w : WireNewOrder) → NewOrderFits w → read_new_order (new_order_bytes w) ≡ w
unfolding read_new_order
read_new_order-bytes w v = λ i. record {
  order_id = le_word-le_bytes 8 w.order_id v.order_id i;
  price_fp = le_word-le_bytes 8 w.price_fp v.price_fp i;
  qty = le_word-le_bytes 4 w.qty v.qty i;
  symbol_id = le_word-le_bytes 2 w.symbol_id v.symbol_id i;
  side = le_word-le_bytes 1 w.side v.side i;
  order_type = le_word-le_bytes 1 w.order_type v.order_type i;
}

-- The message that a new order's fields stand for.
abbrev pub new_order_msg : ℕ → WireNewOrder → MarketDataMsg
new_order_msg seq w = record {
  seq = seq;
  order_id = w.order_id;
  price = to_int64 w.price_fp;
  qty = w.qty;
  symbol = w.symbol_id;
  side = if w.side == 0 then buy else sell;
  msg_type = new_order;
  order_type = order_type_of w.order_type;
}

-- A new order laid out on the wire is decoded to its own fields.
pub decode_new_order-bytes :
    (seq : ℕ) (w : WireNewOrder)
    → NewOrderFits w
    → decode_new_order (new_order_bytes w) (blank_msg seq) ≡ some (new_order_msg seq w)
unfolding decode_new_order
decode_new_order-bytes seq w v = ap (λ x. some (new_order_msg seq x)) (read_new_order-bytes w v)
