-- ===== src/Execution.antt =====
-- src/core/execution_layer.cpp: positions and realised profit from execution reports.
-- `positions_` is a function of the symbol, `none` where the map has no entry. An amount is an `int64_t`;
-- the result `none` means that one overflowed, which is undefined behaviour.
pub mod Amounts
pub mod Ledger
mod Tests
use options_engine.Prelude.{
  ℕ, zero, suc, ◌+◌, ◌^◌, Bool, ◌&&◌, ◌||◌, Option, none, some, List, ◌∷◌, min, ltb, leb,
  if◌then◌else◌,
}
use options_engine.Prelude.Int.{ℤ, pos, negsuc, pos_part, neg_part, ◌+ℤ◌, ◌-ℤ◌, ◌*ℤ◌, ltb_ℤ, eqb_ℤ}
use options_engine.Prelude.Words.{add64}
use options_engine.Prelude.Arrays.{Array, update}
use options_engine.Types.{Price, SymbolId, Side, buy, sell, ExecutionReport}
use options_engine.Spsc.{Ring, try_pop}

pub record Position : Type 0 where
  pub symbol : SymbolId
  pub net_qty : ℤ
  pub realized_pnl : ℤ
  pub avg_cost : Price
  pub total_fills : ℕ

-- `fill_cb` tells whether a callback is set, and `fills` lists what it was called with.
pub record ExecutionLayer : Type 0 where
  pub inbound : Ring ExecutionReport
  pub positions : Array (Option Position)
  pub stat_fills : ℕ
  pub fill_cb : Bool
  pub fills : List (ExecutionReport × Position)

abbrev pub queue_depth : ℕ
queue_depth = 65536

-- What `positions_[symbol]` makes when the key is absent.
abbrev pub no_position : Position
no_position = record {
  symbol = 0;
  net_qty = pos 0;
  realized_pnl = pos 0;
  avg_cost = pos 0;
  total_fills = 0;
}

abbrev pub position_or_new : Option Position → Position
position_or_new none = no_position
position_or_new (some p) = p

abbrev pub signed_qty : Side → ℕ → ℤ
signed_qty buy q = pos q
signed_qty sell q = pos 0 -ℤ pos q

abbrev pub int64_mod : ℕ
int64_mod = 2 ^ 63

-- The result of an operation on `int64_t`.
unfoldable pub int64 : ℤ → Option ℤ
int64 a = if ltb (pos_part a) int64_mod && leb (neg_part a) int64_mod then some a else none

abbrev pub and_then : {A B : Type 0} → Option A → (A → Option B) → Option B
and_then none f = none
and_then (some a) f = f a

-- The absolute value, as a natural number.
abbrev pub abs : ℤ → ℕ
abs a = pos_part a + neg_part a

-- The trade goes against the position.
unfoldable pub closes : ℤ → ℤ → Bool
closes net signed =
    ltb_ℤ (pos 0) net && ltb_ℤ signed (pos 0) || ltb_ℤ net (pos 0) && ltb_ℤ (pos 0) signed

-- `pos.net_qty > 0 ? 1 : -1`
abbrev pub sign : ℤ → ℤ
sign net = if ltb_ℤ (pos 0) net then pos 1 else negsuc 0

-- What closing adds to the realised profit; `std::abs` of the least `int64_t` overflows.
unfoldable pub close_pnl : Position → ExecutionReport → ℤ → Option ℤ
unfolding int64
close_pnl p rpt signed = and_then (int64 (pos (abs p.net_qty))) (λ _.
    and_then (int64 (rpt.exec_price -ℤ p.avg_cost)) (λ per_unit.
      and_then (int64 (per_unit *ℤ pos (min (abs p.net_qty) (abs signed))))
        (λ whole. int64 (whole *ℤ sign p.net_qty))))

unfoldable pub realize : Position → ExecutionReport → ℤ → Option ℤ
unfolding closes close_pnl int64
realize p rpt signed =
    if closes p.net_qty signed
    then and_then (close_pnl p rpt signed) (λ pnl. int64 (p.realized_pnl +ℤ pnl))
    else some p.realized_pnl

abbrev pub next_cost : Position → ExecutionReport → ℤ → Price
next_cost p rpt new_net =
    if eqb_ℤ new_net (pos 0)
    then pos 0
    else if eqb_ℤ p.net_qty (pos 0)
    then rpt.exec_price
    else p.avg_cost

-- The position after one fill.
unfoldable pub apply_fill : Position → ExecutionReport → Option Position
unfolding realize int64
apply_fill p rpt =
    let signed = signed_qty rpt.side rpt.exec_qty in
    and_then (realize p rpt signed) (λ pnl. and_then (int64 (p.net_qty +ℤ signed)) (λ new_net.
      some (record {
        symbol = rpt.symbol;
        net_qty = new_net;
        realized_pnl = pnl;
        avg_cost = next_cost p rpt new_net;
        total_fills = add64 p.total_fills 1;
      })))

unfoldable pub process_report : ExecutionLayer → ExecutionReport → Option ExecutionLayer
unfolding apply_fill
process_report s rpt = and_then (apply_fill (position_or_new (s.positions rpt.symbol)) rpt) (λ p.
    some (record s {
      stat_fills = add64 s.stat_fills 1;
      positions = update s.positions rpt.symbol (some p);
      fills = if s.fill_cb then (rpt, p) ∷ s.fills else s.fills;
    }))

-- The loop of `poll` with `n` messages left to take; the count so far is `count`.
unfoldable pub poll_from : ℕ → ExecutionLayer → ℕ → Option (ExecutionLayer × ℕ)
unfolding process_report
poll_from zero s count = some (s, count)
poll_from (suc n) s count =
    let (q, item) = try_pop queue_depth s.inbound in
    elim item [
      | none ↦ some (s, count)
      | some rpt ↦
          and_then (process_report (record s { inbound = q }) rpt)
            (λ s'. poll_from n s' (count + 1))
    ]

unfoldable pub poll : ℕ → ExecutionLayer → Option (ExecutionLayer × ℕ)
unfolding poll_from
poll max_msgs s = poll_from max_msgs s 0

unfoldable pub get_position : ExecutionLayer → SymbolId → Option Position
get_position s id = s.positions id

-- `run_loop` where `running_` is seen true `rounds` times, with the drain on shutdown.
unfoldable pub run_loop : ℕ → ExecutionLayer → Option ExecutionLayer
unfolding poll
run_loop zero s = and_then (poll 2147483647 s) (λ r. some r.0)
run_loop (suc rounds) s = and_then (poll 512 s) (λ r. run_loop rounds r.0)
