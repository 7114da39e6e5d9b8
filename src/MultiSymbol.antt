-- ===== src/MultiSymbol.antt =====
-- include/core/multi_symbol_engine.hpp: engines sharded by symbol. The header calls `push` and `pop` of
-- `SPSCQueue` and `on_message` of `MatchingEngine`, which those classes do not declare (no program
-- instantiates the template), so they are arguments. `x & (N_SHARDS - 1)` is `x % shards`, since
-- the number of shards is a power of two.
mod Tests
use Prim.Native.Nat.{bit_xor}
use options_engine.Prelude.{
  ℕ, zero, suc, ◌+◌, ◌*◌, ◌%◌, Bool, true, false, Option, none, some, List, [], ◌∷◌, if◌then◌else◌,
}
use options_engine.Prelude.Words.{u32_mod, add64}
use options_engine.Prelude.Arrays.{Array, update}
use options_engine.Types.{SymbolId, MarketDataMsg}
use options_engine.Spsc.{Ring}
use options_engine.OrderBook.Levels.{Levels}
use options_engine.OrderBook.Slots.{Slots}
use options_engine.Engine.{Engine, register_symbol}

-- `for (char c : s) { h ^= uint8_t(c); h *= 16777619u; }`
unfoldable pub fnv1a_from : ℕ → List ℕ → ℕ
fnv1a_from h [] = h
fnv1a_from h (c ∷ s) = fnv1a_from (bit_xor h c * 16777619 % u32_mod) s

unfoldable pub fnv1a : List ℕ → ℕ
unfolding fnv1a_from
fnv1a s = fnv1a_from 2166136261 s

pub record Shard : Type 0 where
  pub engine : Engine
  pub queue : Ring MarketDataMsg
  pub msgs_processed : ℕ
  pub msgs_dropped : ℕ

-- The shard whose engine registers a ticker, and the one that a message is sent to.
unfoldable pub shard_of_ticker : ℕ → List ℕ → ℕ
shard_of_ticker shards ticker = fnv1a ticker % shards

unfoldable pub shard_of_msg : ℕ → MarketDataMsg → ℕ
shard_of_msg shards msg = msg.symbol % shards

abbrev pub Shards : Type 0
Shards = Array Shard

unfoldable pub register_ticker : Levels → Slots → ℕ → Shards → List ℕ → SymbolId → Shards × Bool
unfolding shard_of_ticker
register_ticker raw_levels raw_slots n shards ticker id =
    let i = shard_of_ticker n ticker in
    let (e, done) = register_symbol raw_levels raw_slots (shards i).engine id in
    (update shards i (record (shards i) { engine = e }), done)

module _ (push : Ring MarketDataMsg → MarketDataMsg → Ring MarketDataMsg × Bool) where
  unfoldable pub submit : ℕ → Shards → MarketDataMsg → Shards × Bool
  unfolding shard_of_msg
  submit n shards msg =
      let i = shard_of_msg n msg in
      let s = shards i in
      let (q, pushed) = push s.queue msg in
      if pushed
      then (update shards i (record s { queue = q }), true)
      else (update shards i (record s { msgs_dropped = add64 s.msgs_dropped 1 }), false)

module _ (pop : Ring MarketDataMsg → Ring MarketDataMsg × Option MarketDataMsg)
    (on_message : Engine → MarketDataMsg → Engine) where
  -- One round of `shard_loop`.
  unfoldable pub shard_round : Shard → Shard
  shard_round s =
      let (q, item) = pop s.queue in
      elim item [
        | none ↦ s
        | some msg ↦ record s {
          queue = q;
          engine = on_message s.engine msg;
          msgs_processed = add64 s.msgs_processed 1;
        }
      ]
