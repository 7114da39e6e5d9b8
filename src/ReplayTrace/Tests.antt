-- ===== src/ReplayTrace/Tests.antt =====
-- The recorder on a small generator, and a replay with a fill.
use options_engine.Prelude.{
  ℕ, ◌+◌, ◌*◌, ◌%◌, ◌≡◌, refl, true, false, some, List, [], ◌∷◌, ◌↔◌, length,
}
use options_engine.OrderBook.State.{Book, construct}
use options_engine.OrderBook.Levels.{Levels, null_idx, find_level, scan, insert_level}
use options_engine.OrderBook.Slots
use options_engine.OrderBook.Slots.{Slots, alloc}
use options_engine.OrderBook.Index
use options_engine.Prelude.Arrays.{update}
use options_engine.Prelude.Words.{add32, sub32}
use options_engine.Prelude.Int.{pos}
use options_engine.OrderBook.Orders.{add_order}
use options_engine.OrderBook.Match.{try_match}
use options_engine.ReplayTrace.{TraceEvent, TraceFill, replay_passes}
use options_engine.ReplayTrace.Generate.{stream}
use options_engine.ReplayTrace.Recording.{IsStream, stream-IsStream}
use options_engine.ReplayTrace.Replays.{Replays, replay_passes_iff}

-- A linear congruence.
abbrev lcg : ℕ → ℕ × ℕ
lcg s = let s' = (s * 75 + 74) % 65537 in (s', s')

stream-IsStream_example : (length (stream lcg 1 20) ≡ 20) × IsStream [] 1 (stream lcg 1 20)
stream-IsStream_example = stream-IsStream lcg 1 20

abbrev raw_levels : Levels
raw_levels = record {
  prices = λ _. pos 0;
  qtys = λ _. 0;
  order_counts = λ _. 0;
  head_idxs = λ _. null_idx;
  tail_idxs = λ _. null_idx;
  count = 0;
}

abbrev raw_slots : Slots
raw_slots = record {
  ids = λ _. 0;
  qtys = λ _. 0;
  nexts = λ _. null_idx;
  prevs = λ _. null_idx;
  free_nexts = λ _. null_idx;
  prices = λ _. pos 0;
  accounts = λ _. 0;
  free_head = null_idx;
  used = 0;
}

abbrev fresh : Book
fresh = construct 1 true raw_levels raw_slots

-- An addition of a limit order, each with an account of its own.
abbrev addition : ℕ → ℕ → ℕ → TraceEvent
addition side id qty = record {
  kind = 0;
  side = side;
  type = 0;
  id = id;
  price = pos 5;
  qty = qty;
  account_id = id;
}

-- Sell 10, buy 4, buy 6.
abbrev trades : List TraceEvent
trades = addition 1 1 10 ∷ addition 0 2 4 ∷ addition 0 3 6 ∷ []

abbrev traded : List TraceFill
traded =
    record { aggr_id = 2; passive_id = 1; price = pos 5; qty = 4 }
    ∷ record { aggr_id = 3; passive_id = 1; price = pos 5; qty = 6 }
    ∷ []

passes : replay_passes fresh trades traded ≡ some true
unfolding construct replay_passes add_order try_match find_level scan insert_level alloc Slots.init
    Index.insert Index.init Index.remove update add32 sub32
passes = refl

refuses : replay_passes fresh trades [] ≡ some false
unfolding construct replay_passes add_order try_match find_level scan insert_level alloc Slots.init
    Index.insert Index.init Index.remove update add32 sub32
refuses = refl

replay_passes_iff_example :
    (replay_passes fresh trades traded ≡ some true) ↔ Replays fresh trades traded
replay_passes_iff_example = replay_passes_iff fresh trades traded
