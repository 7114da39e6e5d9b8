-- ===== src/Execution/Tests.antt =====
-- The positions after three reports of two symbols.
use options_engine.Prelude.{ℕ, ◌≡◌, refl, none, some, List, [], ◌∷◌, arith, false}
use options_engine.Prelude.Int.{pos, ◌+ℤ◌, ◌-ℤ◌, ◌*ℤ◌}
use options_engine.Prelude.Words.{add64}
use options_engine.Types.{ExecutionReport, ExecType, Side, buy, sell}
use options_engine.Execution.{ExecutionLayer, Position, apply_fill}
use options_engine.Execution.Ledger.{process_all, net, IsNet, bought, sold, process_all-net}

abbrev report : ℕ → Side → ℕ → ExecutionReport
report id side qty = record {
  order_id = 1;
  contra_order_id = 2;
  exec_price = pos 100;
  exec_qty = qty;
  leaves_qty = 0;
  symbol = id;
  side = side;
  exec_type = ExecType.fill;
}

abbrev layer : ExecutionLayer
layer = record {
  inbound = record { buffer = λ _. report 0 buy 0; write_pos = 0; read_pos = 0 };
  positions = λ _. none;
  stat_fills = 0;
  fill_cb = false;
  fills = [];
}

abbrev reports : List ExecutionReport
reports = report 3 buy 10 ∷ report 4 buy 7 ∷ report 3 sell 12 ∷ []

process_all-net_example :
    (after : ExecutionLayer) × (process_all layer reports ≡ some after)
    × ((id : ℕ) → IsNet (net layer id) (net after id) (bought id reports) (sold id reports))
process_all-net_example =
    process_all-net 100 (omega arith) layer reports (omega arith, (omega arith, (omega arith, tt)))
      (λ id. record { net = omega arith; pnl = omega arith; cost = omega arith })

abbrev bought_ten : Position
bought_ten = record {
  symbol = 3;
  net_qty = pos 10;
  realized_pnl = pos 0;
  avg_cost = pos 100;
  total_fills = 1;
}

-- Five of the ten bought at 100 are sold at 107.
closed :
    apply_fill bought_ten (record (report 3 sell 5) { exec_price = pos 107 })
    ≡ some (record bought_ten { net_qty = pos 5; realized_pnl = pos 35; total_fills = 2 })
unfolding apply_fill add64 ◌+ℤ◌ ◌-ℤ◌ ◌*ℤ◌
closed = refl
