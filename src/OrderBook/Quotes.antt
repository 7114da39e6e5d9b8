-- ===== src/OrderBook/Quotes.antt =====
-- src/core/order_book.cpp: `best_quote`, `bid_depth` and `ask_depth`.
use options_engine.Prelude.{ℕ, zero, suc, ◌+◌, List, [], ◌∷◌, min, ltb, if◌then◌else◌}
use options_engine.Types.{Price, Qty, BestQuote, price_invalid}
use options_engine.OrderBook.Levels.{Levels}
use options_engine.OrderBook.State.{Book}

pub record PriceLevel : Type 0 where
  pub price : Price
  pub total_qty : Qty
  pub order_count : ℕ
  pub head_idx : ℕ

unfoldable pub best_quote : Book → BestQuote
best_quote b = record {
  bid_price = if ltb 0 b.bids.count then b.bids.prices 0 else price_invalid;
  ask_price = if ltb 0 b.asks.count then b.asks.prices 0 else price_invalid;
  bid_qty = if ltb 0 b.bids.count then b.bids.qtys 0 else 0;
  ask_qty = if ltb 0 b.asks.count then b.asks.qtys 0 else 0;
  symbol = b.symbol;
}

-- The entries written to `out`, whose size is `room`; their number is what the call returns.
unfoldable pub depth_from : Levels → ℕ → ℕ → List PriceLevel
depth_from s i zero = []
depth_from s i (suc n) =
    record {
      price = s.prices i;
      total_qty = s.qtys i;
      order_count = s.order_counts i;
      head_idx = s.head_idxs i;
    }
    ∷ depth_from s (i + 1) n

unfoldable pub bid_depth : Book → ℕ → List PriceLevel
unfolding depth_from
bid_depth b room = depth_from b.bids 0 (min room b.bids.count)

unfoldable pub ask_depth : Book → ℕ → List PriceLevel
unfolding depth_from
ask_depth b room = depth_from b.asks 0 (min room b.asks.count)
