-- ===== src/MultiSymbol/Tests.antt =====
-- The routing of the ticker "A", whose symbol is 1, among four shards.
use options_engine.Prelude.{◌≢◌, [], ◌∷◌, arith}
use options_engine.Prelude.Int.{pos}
use options_engine.Types.{MarketDataMsg, buy, limit, new_order}
use options_engine.MultiSymbol.{fnv1a, shard_of_ticker, shard_of_msg}

abbrev msg : MarketDataMsg
msg = record {
  seq = 1;
  order_id = 42;
  price = pos 1000000;
  qty = 10;
  symbol = 1;
  side = buy;
  msg_type = new_order;
  order_type = limit;
}

-- The ticker is registered in one shard, and its messages are sent to another.
other_shard : shard_of_ticker 4 (65 ∷ []) ≢ shard_of_msg 4 msg
unfolding shard_of_ticker shard_of_msg fnv1a
other_shard = omega arith
