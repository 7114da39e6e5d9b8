-- ===== src/Execution/Ledger.antt =====
-- The position of a symbol after a run of execution reports.
use mathlib.Core.Path.{subst}
use native.Mathlib.Nat.{mul-add}
use options_engine.Prelude.{
  ℕ, ◌+◌, ◌≤◌, ◌<◌, ◌≡◌, refl, ap, sym, ◌∙◌, ◌≢◌, true, false, List, [], ◌∷◌, arith, ◌==◌,
  if◌then◌else◌, inl, inr, length, Option, some, ℕ_discrete, Option-cases, some-eq, none-ne,
}
use options_engine.Prelude.Int.{ℤ, pos, pos_part, neg_part, ◌+ℤ◌, ◌-ℤ◌, +ℤ_parts, -ℤ_parts}
use options_engine.Prelude.Words.{u64_mod, add64, add64_exact}
use options_engine.Prelude.Arrays.{update, update_self, update_ne}
use options_engine.Types.{SymbolId, Side, buy, sell, ExecutionReport}
use options_engine.Execution.{
  Position, ExecutionLayer, position_or_new, signed_qty, int64_mod, abs, and_then, apply_fill,
  process_report,
}
use options_engine.Execution.Amounts.{IsBounded, apply_fill-some}

unfoldable pub process_all : ExecutionLayer → List ExecutionReport → Option ExecutionLayer
unfolding process_report
process_all s [] = some s
process_all s (r ∷ rs) = and_then (process_report s r) (λ s'. process_all s' rs)

-- The shares of all reports.
abbrev pub shares : List ExecutionReport → ℕ
shares [] = 0
shares (r ∷ rs) = r.exec_qty + shares rs

-- No price is above `most`, or below its negative.
abbrev pub Fair : ℕ → List ExecutionReport → Type 0
Fair most [] = Unit {0}
Fair most (r ∷ rs) = (abs r.exec_price ≤ most) × Fair most rs

abbrev pub position : ExecutionLayer → SymbolId → Position
position s id = position_or_new (s.positions id)

-- The shares bought and the shares sold of a symbol.
abbrev pub bought : SymbolId → List ExecutionReport → ℕ
bought id [] = 0
bought id (r ∷ rs) =
    (if r.symbol == id then elim r.side [ buy ↦ r.exec_qty | sell ↦ 0 ] else 0) + bought id rs

abbrev pub sold : SymbolId → List ExecutionReport → ℕ
sold id [] = 0
sold id (r ∷ rs) =
    (if r.symbol == id then elim r.side [ buy ↦ 0 | sell ↦ r.exec_qty ] else 0) + sold id rs

abbrev pub net : ExecutionLayer → SymbolId → ℤ
net s id = (position_or_new (s.positions id)).net_qty

-- `after = before + b - s`, with no subtraction.
abbrev pub IsNet : ℤ → ℤ → ℕ → ℕ → Type 0
IsNet before after b s = pos_part after + neg_part before + s ≡ neg_part after + pos_part before + b

IsNet-eq : (n m k : ℤ) (b s : ℕ) → IsNet n k b s → m ≡ k → IsNet n m (b + 0) (s + 0)
IsNet-eq n m k b s h e = rw e (omega arith)

signed-parts :
    (n : ℤ) (side : Side) (q : ℕ)
    → IsNet n
        (n +ℤ signed_qty side q)
        (elim side [ buy ↦ q | sell ↦ 0 ])
        (elim side [ buy ↦ 0 | sell ↦ q ])
signed-parts n buy q = omega (arith, +ℤ_parts n (pos q))
signed-parts n sell q = omega (arith, +ℤ_parts n (pos 0 -ℤ pos q), -ℤ_parts (pos 0) (pos q))

IsBounded-less : (most q t : ℕ) (p : Position) → IsBounded most (q + t) p → IsBounded most q p
IsBounded-less most q t p v = record {
  net = omega (arith, v.net);
  pnl = omega (arith, v.pnl, mul-add (most + most) q t);
  cost = v.cost;
}

IsBounded-rest : (most q t : ℕ) (p : Position) → IsBounded most (q + t) p → IsBounded most t p
IsBounded-rest most q t p v = record {
  net = omega (arith, v.net);
  pnl = omega (arith, v.pnl, mul-add (most + most) q t);
  cost = v.cost;
}

module _ (most : ℕ) (narrow : most + most < int64_mod) where
  -- What a report does to every symbol's position, with `t` shares to come.
  record IsFilled (s s' : ExecutionLayer) (r : ExecutionReport) (t : ℕ) : Type 0 where
    ends : process_report s r ≡ some s'
    bounded : (id : SymbolId) → IsBounded most t (position s' id)
    nets : (id : SymbolId) → IsNet (net s id) (net s' id) (bought id (r ∷ [])) (sold id (r ∷ []))

  process_report-IsFilled :
      (s : ExecutionLayer) (r : ExecutionReport) (t : ℕ)
      → abs r.exec_price ≤ most
      → ((id : SymbolId) → IsBounded most (r.exec_qty + t) (position s id))
      → (s' : ExecutionLayer) × IsFilled s s' r t
  unfolding process_report
  process_report-IsFilled s r t fair v =
      let p = position s r.symbol in
      let (p', ends, own, net_le, pnl_le, cost_le) =
        apply_fill-some most p r fair narrow (IsBounded-less most r.exec_qty t p (v r.symbol)) in
      let s' : ExecutionLayer = record s {
        stat_fills = add64 s.stat_fills 1;
        positions = update s.positions r.symbol (some p');
        fills = if s.fill_cb then (r, p') ∷ s.fills else s.fills;
      } in
      let here : position s' r.symbol ≡ p' =
        ap position_or_new (update_self s.positions r.symbol (some p')) in
      let there : (id : SymbolId) → r.symbol ≢ id → position s' id ≡ position s id =
        λ id ne. ap position_or_new (update_ne s.positions r.symbol id (some p') ne) in
      let room : IsBounded most t p' = record {
        net = omega (arith, net_le, (v r.symbol).net);
        pnl = omega (arith, pnl_le, (v r.symbol).pnl, mul-add (most + most) r.exec_qty t);
        cost = cost_le;
      } in
      (
        s',
        record {
          ends = rw ends;
          bounded = λ id. elim (ℕ_discrete r.symbol id) [
            | yes e ↦
                subst (λ i. IsBounded most t (position s' i)) e
                  (subst (IsBounded most t) (sym here) room)
            | no ne ↦
                subst (IsBounded most t) (sym (there id ne))
                  (IsBounded-rest most r.exec_qty t (position s id) (v id))
          ];
          nets = λ id. elim (ℕ_discrete r.symbol id) [
            | yes e ↦ rw (self-test r.symbol id e) (
                IsNet-eq (net s id) (net s' id) (net s id +ℤ signed_qty r.side r.exec_qty) _ _
                  (signed-parts (net s id) r.side r.exec_qty)
                  (subst (λ i. net s' i ≡ net s i +ℤ signed_qty r.side r.exec_qty) e
                    (ap (λ x. x.net_qty) here ∙ own)))
            | no ne ↦ rw (ne-test r.symbol id ne) (
                IsNet-eq (net s id) (net s' id) (net s id) 0 0 (omega arith)
                  (ap (λ x. x.net_qty) (there id ne)))
          ];
        },
      )
    where
      self-test : (a b : ℕ) → a ≡ b → (a == b) ≡ true
      self-test a b h = ground arith

      ne-test : (a b : ℕ) → a ≢ b → (a == b) ≡ false
      ne-test a b h = ground arith

  -- While no price is above `most` or below its negative, and for every symbol the amounts leave room for the
  -- shares of all reports, at up to twice `most` of profit each, no amount overflows its 64 bits in a run
  -- of reports. After it the net quantity of each symbol is the one before, plus the shares bought and
  -- less the shares sold in the reports of that symbol; no other report touches it.
  pub process_all-net :
      (s : ExecutionLayer) (rs : List ExecutionReport)
      → Fair most rs
      → ((id : SymbolId) → IsBounded most (shares rs) (position s id))
      → (s' : ExecutionLayer) × (process_all s rs ≡ some s')
        × ((id : SymbolId) → IsNet (net s id) (net s' id) (bought id rs) (sold id rs))
  unfolding process_all
  process_all-net s [] fair v = (s, refl, λ id. omega arith)
  process_all-net s (r ∷ rs) fair v =
      let (s1, one) = process_report-IsFilled s r (shares rs) fair.0 v in
      let (s2, rest, nets) = process_all-net s1 rs fair.1 one.bounded in
      (s2, rw one.ends rest, λ id. omega (arith, one.nets id, nets id))

process_report-stat_fills :
    (s : ExecutionLayer) (r : ExecutionReport) {s' : ExecutionLayer}
    → process_report s r ≡ some s'
    → s'.stat_fills ≡ add64 s.stat_fills 1
unfolding process_report
process_report-stat_fills s r e = elim (Option-cases (apply_fill (position s r.symbol) r)) [
  | inl n ↦ none-ne (rw (n, process_report) at e)
  | inr (p, n) ↦ ap (λ x. x.stat_fills) (sym (some-eq (rw (n, process_report) at e)))
]

-- Every report of a run that ends is counted once, while the count fits its 64 bits.
pub process_all-stat_fills :
    (s : ExecutionLayer) (rs : List ExecutionReport) {s' : ExecutionLayer}
    → s.stat_fills + length rs < u64_mod
    → process_all s rs ≡ some s'
    → s'.stat_fills ≡ s.stat_fills + length rs
unfolding process_all
process_all-stat_fills s [] h e = ap (λ x. x.stat_fills) (sym (some-eq e)) ∙ omega arith
process_all-stat_fills s (r ∷ rs) h e = elim (Option-cases (process_report s r)) [
  | inl n ↦ none-ne (rw (n, process_all) at e)
  | inr (s1, n) ↦
      let one : s1.stat_fills ≡ s.stat_fills + 1 =
        process_report-stat_fills s r n ∙ add64_exact s.stat_fills 1 (omega arith) in
      omega
        (arith, one, process_all-stat_fills s1 rs (omega (arith, one)) (rw (n, process_all) at e))
]
