-- ===== src/OrderBook/Liquidity.antt =====
-- src/core/order_book.cpp, `OrderBook::available_liquidity`: the fill-or-kill pre-check.
pub mod Refines
use options_engine.Prelude.{
  ℕ, zero, suc, ◌+◌, Bool, true, false, Option, none, some, min, leb, ◌==◌, if◌then◌else◌,
}
use options_engine.Prelude.Words.{add64}
use options_engine.Types.{Order, uint32_max}
use options_engine.OrderBook.Levels.{Levels, null_idx}
use options_engine.OrderBook.Slots.{Slots, max_orders}
use options_engine.OrderBook.State.{Book, side_of}
use options_engine.OrderBook.Match.{out_of_reach, same_account, passive_is_bid}

-- The walk of one queue from `idx`. The flag says that the function returns there.
unfoldable pub queue_liquidity : ℕ → Order → Slots → ℕ → ℕ → Option (Bool × ℕ)
unfolding same_account
queue_liquidity zero o p idx total = none
queue_liquidity (suc f) o p idx total =
    let total' = add64 total (p.qtys idx) in
    let rest = queue_liquidity f o p (p.nexts idx) total' in
    if idx == null_idx
    then some (false, total)
    else if same_account o p idx
    then some (true, total)
    else if leb o.qty_remaining total'
    then some (true, total')
    else rest

-- The loop over the levels from `i` on, with `n` left.
unfoldable pub levels_liquidity : ℕ → Order → Levels → Slots → ℕ → ℕ → ℕ → Option ℕ
unfolding queue_liquidity out_of_reach
levels_liquidity orders o s p i zero total = some total
levels_liquidity orders o s p i (suc n) total =
    let rest : Option ℕ = elim (queue_liquidity orders o p (s.head_idxs i) total) [
      | none ↦ none
      | some (true, t) ↦ some t
      | some (false, t) ↦ levels_liquidity orders o s p (i + 1) n t
    ] in
    if out_of_reach o (s.prices i) then some total else rest

unfoldable pub available_liquidity : Book → Order → Option ℕ
unfolding levels_liquidity
available_liquidity b o =
    let s = side_of (passive_is_bid o) b in
    elim (levels_liquidity (max_orders + 1) o s b.slots 0 s.count 0) [
      | none ↦ none
      | some total ↦ some (min total uint32_max)
    ]
