-- ===== src/OrderBook/Orders/Fills.antt =====
-- `add_order`: what it fires, that an immediate order never rests, and that a refused fill-or-kill order
-- leaves no trace.
use options_engine.Prelude.{
  ℕ, ◌≤◌, ◌≡◌, refl, ap, sym, ◌∙◌, inl, inr, Bool, true, false, Option, none, some, List, [], arith,
  ltb, ◌==◌, if◌then◌else◌, Bool-cases, Option-cases, some-eq, none-ne,
}
use options_engine.Prelude.Words.{add64}
use options_engine.Types.{Order, is_buy, is_fok, is_filled, is_immediate, ExecutionReport}
use options_engine.OrderBook.Levels.{null_idx}
use options_engine.OrderBook.Slots.{alloc}
use options_engine.OrderBook.Index
use options_engine.OrderBook.State.{Book, side_of}
use options_engine.OrderBook.Match.{Matching, try_match}
use options_engine.OrderBook.Match.Reports.{All, total_exec, IsReportOf}
use options_engine.OrderBook.Match.Progress.{IsProgress}
use options_engine.OrderBook.Match.Fills.{try_match-IsProgress}
use options_engine.OrderBook.Liquidity.{available_liquidity}
use options_engine.OrderBook.Orders.{
  Outcome, reject, level_for, rest_order, after_match, add_immediate, add_order,
}

-- What is said of the reports of an addition, and of its own side if the order is immediate.
pub record IsAddition (b : Book) (o : Order) (out : Outcome) : Type 0 where
  pub filled : b.match_cb ≡ true → total_exec out.reports ≤ o.qty_remaining
  pub reports : All (IsReportOf b.symbol o) out.reports

IsAddition-of :
    (b : Book) (o : Order) (m : Matching) (out : Outcome)
    → IsProgress b o m
    → out.reports ≡ m.reports
    → IsAddition b o out
IsAddition-of b o m out v e = record {
  filled = λ cb. rw e (omega (arith, v.sum cb));
  reports = rw e v.reports;
}

rest_order-reports :
    (b : Book) (o : Order) (rs : List ExecutionReport) {out : Outcome}
    → rest_order b o rs ≡ some out
    → out.reports ≡ rs
unfolding rest_order
rest_order-reports b o rs {out} e = elim (Option-cases (level_for (side_of (is_buy o.side) b) o)) [
  | inl n ↦ ap (λ x. x.reports) (sym (some-eq (rw (n, rest_order) at e)))
  | inr ((s, lvl, created), n) ↦ elim (Bool-cases ((alloc b.slots).1 == null_idx)) [
    | inl t ↦ ap (λ x. x.reports) (sym (some-eq (rw (n, t, rest_order) at e)))
    | inr t ↦
        elim (Option-cases
          (Index.insert b.index o.id (alloc b.slots).1 (if is_buy o.side then 0 else 1))) [
            | inl k ↦ none-ne (rw (n, t, k, rest_order) at e)
            | inr (u, k) ↦ ap (λ x. x.reports) (sym (some-eq (rw (n, t, k, rest_order) at e)))
          ]
  ]
]

after_match-reports :
    (m : Matching) (walled : Bool) {out : Outcome}
    → after_match m walled ≡ some out
    → out.reports ≡ m.reports
unfolding after_match
after_match-reports m walled {out} e = elim (Bool-cases (is_filled m.incoming)) [
  | inl t ↦ ap (λ x. x.reports) (sym (some-eq (rw (t, after_match) at e)))
  | inr t ↦ elim (Bool-cases walled) [
    | inl w ↦ ap (λ x. x.reports) (sym (some-eq (rw (t, w, after_match) at e)))
    | inr w ↦ rest_order-reports m.book m.incoming m.reports (rw (t, w, after_match) at e)
  ]
]

-- An immediate order ends in one of two ways: refused with the book as it was, or matched.
data ImmediateCase (b : Book) (o : Order) (out : Outcome) : Type 0 where
  refused : is_fok o.type ≡ true → out ≡ reject b [] → ImmediateCase b o out
  matched :
      (m : Matching)
      → IsProgress b o m
      → out ≡ record { book = m.book; result = true; reports = m.reports }
      → ImmediateCase b o out

matched-case :
    (b : Book) (o : Order) {out : Outcome}
    → (r : Option (Matching × Bool)) → try_match b o ≡ r
    → (elim r [
      | none ↦ none
      | some (m, _) ↦ some (record { book = m.book; result = true; reports = m.reports })
    ])
      ≡ some out
    → ImmediateCase b o out
matched-case b o none t e = none-ne e
matched-case b o (some (m, w)) t e = matched m (try_match-IsProgress b o t) (sym (some-eq e))

add_immediate-case :
    (b : Book) (o : Order) {out : Outcome} → add_immediate b o ≡ some out → ImmediateCase b o out
unfolding add_immediate
add_immediate-case b o {out} e = elim (Bool-cases (is_fok o.type)) [
  | inl t ↦ elim (Option-cases (available_liquidity b o)) [
    | inl n ↦ none-ne (rw (t, n, add_immediate) at e)
    | inr (q, n) ↦ elim (Bool-cases (ltb q o.qty_remaining)) [
      | inl u ↦ refused t (sym (some-eq (rw (t, n, u, add_immediate) at e)))
      | inr u ↦ matched-case b o (try_match b o) refl (rw (t, n, u, add_immediate) at e)
    ]
  ]
  | inr t ↦ matched-case b o (try_match b o) refl (rw (t, add_immediate) at e)
]

abbrev pub counted : Book → Book
counted b = record b { stat_orders = add64 b.stat_orders 1 }

pub add_order-IsAddition :
    (b : Book) (o : Order) {out : Outcome} → add_order b o ≡ some out → IsAddition (counted b) o out
unfolding add_order
add_order-IsAddition b o {out} e = elim (Bool-cases (is_immediate o.type)) [
  | inl t ↦ elim (add_immediate-case (counted b) o (rw (t, add_order) at e)) [
    | refused k p ↦ rw p (record { filled = λ _. omega arith; reports = tt })
    | matched m v p ↦ IsAddition-of (counted b) o m out v (ap (λ x. x.reports) p)
  ]
  | inr t ↦ elim (Option-cases (try_match (counted b) o)) [
    | inl n ↦ none-ne (rw (t, n, add_order) at e)
    | inr ((m, walled), n) ↦
        IsAddition-of (counted b) o m out (try_match-IsProgress (counted b) o n)
          (after_match-reports m walled (rw (t, n, add_order) at e))
  ]
]

-- Whatever a book with a callback holds, when `add_order` returns it has fired only reports of the
-- order added, on its side, at prices that it accepts (any price for a market order), and of no more
-- than its quantity in all.
pub add_order-reports :
    (b : Book) (o : Order) {out : Outcome}
    → b.match_cb ≡ true
    → add_order b o ≡ some out
    → All (IsReportOf b.symbol o) out.reports × (total_exec out.reports ≤ o.qty_remaining)
add_order-reports b o cb e =
    ((add_order-IsAddition b o e).reports, (add_order-IsAddition b o e).filled cb)

own-counted :
    (x : Bool) (b : Book) (n k : ℕ)
    → side_of x (record b { stat_orders = n; stat_rejected = k }) ≡ side_of x b
own-counted true b n k = refl
own-counted false b n k = refl

-- When `add_order` returns, a market, IOC or FOK order has left its own side of the book as it was.
pub immediate_never_rests :
    (b : Book) (o : Order) {out : Outcome}
    → is_immediate o.type ≡ true
    → add_order b o ≡ some out
    → side_of (is_buy o.side) out.book ≡ side_of (is_buy o.side) b
unfolding add_order
immediate_never_rests b o {out} t e =
    elim (add_immediate-case (counted b) o (rw (t, add_order) at e)) [
      | refused k p ↦ ap (λ x. side_of (is_buy o.side) x.book) p ∙ own-counted (is_buy o.side) b _ _
      | matched m v p ↦
          ap (λ x. side_of (is_buy o.side) x.book) p
          ∙ v.own
          ∙ own-counted (is_buy o.side) b (add64 b.stat_orders 1) b.stat_rejected
    ]

-- A market, IOC or FOK order for which `add_order` returns false is a fill-or-kill order; it has
-- traded nothing, and changed nothing in the book but the counts of orders and of rejections.
pub refused_immediate_atomic :
    (b : Book) (o : Order) {out : Outcome}
    → is_immediate o.type ≡ true
    → add_order b o ≡ some out
    → out.result ≡ false
    → (is_fok o.type ≡ true)
      × (out.reports ≡ [])
      × (out.book ≡ record b {
        stat_orders = add64 b.stat_orders 1;
        stat_rejected = add64 b.stat_rejected 1;
      })
unfolding add_order
refused_immediate_atomic b o {out} t e no_result =
    elim (add_immediate-case (counted b) o (rw (t, add_order) at e)) [
      | refused k p ↦ (k, ap (λ x. x.reports) p, ap (λ x. x.book) p)
      | matched m v p ↦ cc (ap (λ x. x.result) p)
    ]
