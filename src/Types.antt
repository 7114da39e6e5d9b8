-- ===== src/Types.antt =====
-- include/core/types.hpp: prices, orders, execution reports, feed messages and quotes. A price is a
-- signed fixed-point number, every other number is unsigned; the padding bytes carry nothing.
use options_engine.Prelude.{ℕ, ◌-◌, ◌^◌, Bool, true, false, ◌==◌, if◌then◌else◌}
use options_engine.Prelude.Int.{ℤ, negsuc}

abbrev pub Price : Type 0
Price = ℤ

abbrev pub Qty : Type 0
Qty = ℕ

abbrev pub OrderId : Type 0
OrderId = ℕ

abbrev pub SymbolId : Type 0
SymbolId = ℕ

abbrev pub SeqNum : Type 0
SeqNum = ℕ

-- The least `int64_t`.
abbrev pub price_invalid : Price
price_invalid = negsuc (2 ^ 63 - 1)

abbrev pub uint32_max : ℕ
uint32_max = 2 ^ 32 - 1

pub data Side : Type 0 where
  buy sell : Side

-- An `OrderType` is cast from a byte unchecked, so it also holds values with no enumerator.
pub data OrderType : Type 0 where
  limit market ioc fok : OrderType
  unnamed : ℕ → OrderType

pub data OrderStatus : Type 0 where
  new partially_filled filled cancelled rejected : OrderStatus

pub data ExecType : Type 0 where
  new fill partial_fill cancelled rejected : ExecType

pub record Order : Type 0 where
  pub id : OrderId
  pub price : Price
  pub qty : Qty
  pub qty_remaining : Qty
  pub symbol : SymbolId
  pub side : Side
  pub type : OrderType
  pub status : OrderStatus
  pub account_id : ℕ

abbrev pub is_buy : Side → Bool
is_buy buy = true
is_buy sell = false

abbrev pub is_sell : Side → Bool
is_sell buy = false
is_sell sell = true

abbrev pub is_filled : Order → Bool
is_filled o = o.qty_remaining == 0

abbrev pub is_market : OrderType → Bool
is_market market = true
is_market _ = false

abbrev pub is_limit : OrderType → Bool
is_limit limit = true
is_limit _ = false

abbrev pub is_fok : OrderType → Bool
is_fok fok = true
is_fok _ = false

-- Market, IOC or FOK: an order that never rests.
abbrev pub is_immediate : OrderType → Bool
is_immediate market = true
is_immediate ioc = true
is_immediate fok = true
is_immediate _ = false

pub record ExecutionReport : Type 0 where
  pub order_id : OrderId
  pub contra_order_id : OrderId
  pub exec_price : Price
  pub exec_qty : Qty
  pub leaves_qty : Qty
  pub symbol : SymbolId
  pub side : Side
  pub exec_type : ExecType

-- `MarketDataMsg::Type`; the trace reader casts a byte to it unchecked.
pub data MsgType : Type 0 where
  new_order cancel_order modify_order heartbeat : MsgType
  unnamed : ℕ → MsgType

pub record MarketDataMsg : Type 0 where
  pub seq : SeqNum
  pub order_id : OrderId
  pub price : Price
  pub qty : Qty
  pub symbol : SymbolId
  pub side : Side
  pub msg_type : MsgType
  pub order_type : OrderType

pub record BestQuote : Type 0 where
  pub bid_price : Price
  pub ask_price : Price
  pub bid_qty : Qty
  pub ask_qty : Qty
  pub symbol : SymbolId

-- `static_cast<OrderType>(b)`
abbrev pub order_type_of : ℕ → OrderType
order_type_of b =
    if b == 0
    then limit
    else if b == 1
    then market
    else if b == 2
    then ioc
    else if b == 3
    then fok
    else OrderType.unnamed b

-- `static_cast<uint8_t>(t)`
abbrev pub byte_of_order_type : OrderType → ℕ
byte_of_order_type limit = 0
byte_of_order_type market = 1
byte_of_order_type ioc = 2
byte_of_order_type fok = 3
byte_of_order_type (OrderType.unnamed b) = b

-- `static_cast<MarketDataMsg::Type>(b)`
abbrev pub msg_type_of : ℕ → MsgType
msg_type_of b =
    if b == 0
    then new_order
    else if b == 1
    then cancel_order
    else if b == 2
    then modify_order
    else if b == 3
    then heartbeat
    else MsgType.unnamed b

abbrev pub byte_of_msg_type : MsgType → ℕ
byte_of_msg_type new_order = 0
byte_of_msg_type cancel_order = 1
byte_of_msg_type modify_order = 2
byte_of_msg_type heartbeat = 3
byte_of_msg_type (MsgType.unnamed b) = b
