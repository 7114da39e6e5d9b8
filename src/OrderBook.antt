-- ===== src/OrderBook.antt =====
-- src/core/order_book.cpp: the limit order book of one symbol.
pub mod Levels
pub mod Slots
pub mod Index
pub mod State
pub mod Links
pub mod View
pub mod Match
pub mod Liquidity
pub mod Orders
pub mod Quotes
mod Tests
