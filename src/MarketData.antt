-- ===== src/MarketData.antt =====
-- src/core/market_data.cpp and its header: the feed decoder.
pub mod Wire
pub mod Ingest
mod Tests
