-- ===== src/OrderBook/Match/Reports.antt =====
-- The reports that matching fires, as a list.
use options_engine.Prelude.{
  ℕ, ◌+◌, ◌≡◌, Bool, true, false, List, [], ◌∷◌, arith, ◌==◌, if◌then◌else◌,
}
use options_engine.Types.{Order, ExecutionReport, ExecType}
use options_engine.OrderBook.Match.{out_of_reach, fire}

abbrev pub All {ℓ κ} : {A : Type ℓ} → (A → Type κ) → List A → Type κ
All P [] = Unit
All P (x ∷ xs) = P x × All P xs

-- One more report, if there is a callback.
pub All-fire :
    (P : ExecutionReport → Type 0) (cb : Bool) (rs : List ExecutionReport) (r : ExecutionReport)
    → All P rs
    → P r
    → All P (fire cb rs r)
unfolding fire
All-fire P false rs r h p = h
All-fire P true [] r h p = (p, tt)
All-fire P true (x ∷ xs) r h p = (h.0, All-fire P true xs r h.1 p)

-- The shares of all reports together.
abbrev pub total_exec : List ExecutionReport → ℕ
total_exec [] = 0
total_exec (r ∷ rs) = r.exec_qty + total_exec rs

pub total_exec-fire :
    (cb : Bool) (rs : List ExecutionReport) (r : ExecutionReport)
    → cb ≡ true
    → total_exec (fire cb rs r) ≡ total_exec rs + r.exec_qty
unfolding fire
total_exec-fire false rs r e = cc
total_exec-fire true [] r e = omega arith
total_exec-fire true (x ∷ xs) r e = omega (arith, total_exec-fire true xs r e)

pub fire-none :
    (cb : Bool) (rs : List ExecutionReport) (r : ExecutionReport)
    → cb ≡ false
    → rs ≡ []
    → fire cb rs r ≡ []
unfolding fire
fire-none false rs r e h = h
fire-none true rs r e h = cc

-- A report about `o`, at a price that `o` accepts.
pub record IsReportOf (symbol : ℕ) (o : Order) (r : ExecutionReport) : Type 0 where
  pub of_order : r.order_id ≡ o.id
  pub of_side : r.side ≡ o.side
  pub of_symbol : r.symbol ≡ symbol
  pub in_reach : out_of_reach o r.exec_price ≡ false
  pub kind : r.exec_type ≡ (if r.leaves_qty == 0 then ExecType.fill else ExecType.partial_fill)
