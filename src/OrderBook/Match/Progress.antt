-- ===== src/OrderBook/Match/Progress.antt =====
-- One fill of `try_match`: what it reports and what it leaves of the incoming order.
use options_engine.Prelude.{
  ℕ, ◌+◌, ◌-◌, ◌≤◌, ◌≡◌, refl, inl, inr, Bool, true, false, not, some, [], min, arith, ◌==◌,
  Bool-cases, Option-cases, ap, ◌∙◌, some-eq, none-ne,
}
use mathlib.Core.Path.{subst}
use options_engine.Prelude.Words.{sub32, add64}
use options_engine.Prelude.Arrays.{update}
use options_engine.Types.{Price, Order, is_buy, ExecutionReport}
use options_engine.OrderBook.Levels.{Levels}
use options_engine.OrderBook.Slots.{Slots, free_slot}
use options_engine.OrderBook.Index.{Table, remove}
use options_engine.OrderBook.State.{Book, side_of, put_side}
use options_engine.OrderBook.Match.{
  Matching, passive, passive_is_bid, out_of_reach, trade, dequeue, fill_head, report_of,
  advance_head,
}
use options_engine.OrderBook.Match.Reports.{
  All, All-fire, total_exec, total_exec-fire, fire-none, IsReportOf,
}

-- What holds of the matching of `o` on book `b` at any time: nothing of `o` changes but the quantity
-- left, the reports add up with it to the quantity at the start, each is a report of `o`, and the
-- order's own side is as it was.
pub record IsProgress (b : Book) (o : Order) (m : Matching) : Type 0 where
  pub incoming : m.incoming ≡ record o { qty_remaining = m.incoming.qty_remaining }
  pub symbol : m.book.symbol ≡ b.symbol
  pub callback : m.book.match_cb ≡ b.match_cb
  pub sum : b.match_cb ≡ true → total_exec m.reports + m.incoming.qty_remaining ≡ o.qty_remaining
  pub silent : b.match_cb ≡ false → m.reports ≡ []
  pub left : m.incoming.qty_remaining ≤ o.qty_remaining
  pub reports : All (IsReportOf b.symbol o) m.reports
  pub own : side_of (is_buy o.side) m.book ≡ side_of (is_buy o.side) b

abbrev with_left : ℕ → Order → Order
with_left leaves o = record o { qty_remaining = leaves }

pub put_side-fields :
    (is_bid : Bool) (s : Levels) (b : Book)
    → ((put_side is_bid s b).symbol ≡ b.symbol) × ((put_side is_bid s b).match_cb ≡ b.match_cb)
put_side-fields true s b = (refl, refl)
put_side-fields false s b = (refl, refl)

own-put_side :
    (x y : Bool) (s : Levels) (b : Book) → y ≡ x → side_of x (put_side (not y) s b) ≡ side_of x b
own-put_side true true s b e = refl
own-put_side false false s b e = refl
own-put_side true false s b e = cc
own-put_side false true s b e = cc

own-slots :
    (x : Bool) (b : Book) (p : Slots) (t : Table) (n : ℕ)
    → side_of x (record b { slots = p; index = t; stat_matches = n }) ≡ side_of x b
own-slots true b p t n = refl
own-slots false b p t n = refl

module _ {b : Book} {o : Order} where
  pub own-after :
      (m : Matching) (s : Levels) (p : Slots) (t : Table) (n : ℕ)
      → IsProgress b o m
      → side_of (is_buy o.side) (
          put_side
            (not (is_buy m.incoming.side))
            s
            (record (m.book) { slots = p; index = t; stat_matches = n }))
        ≡ side_of (is_buy o.side) b
  own-after m s p t n v =
      own-put_side (is_buy o.side) (is_buy m.incoming.side) s _ (ap (λ x. is_buy x.side) v.incoming)
      ∙ own-slots (is_buy o.side) m.book p t n
      ∙ v.own

  pub reach-incoming :
      (m : Matching) (px : Price)
      → IsProgress b o m
      → out_of_reach m.incoming px ≡ out_of_reach o px
  unfolding out_of_reach
  reach-incoming m px v = rw v.incoming

  report-IsReportOf :
      (px : Price) (m : Matching) (slot fill_qty leaves : ℕ)
      → out_of_reach o px ≡ false
      → IsProgress b o m
      → IsReportOf b.symbol o (report_of m slot px fill_qty leaves)
  unfolding report_of
  report-IsReportOf px m slot fill_qty leaves reach v = record {
    of_order = ap (λ x. x.id) v.incoming;
    of_side = ap (λ x. x.side) v.incoming;
    of_symbol = v.symbol;
    in_reach = reach;
    kind = refl;
  }

  trade-IsProgress :
      (px : Price) (m : Matching)
      → out_of_reach o px ≡ false
      → IsProgress b o m
      → IsProgress b o (trade px m)
  unfolding trade
  trade-IsProgress px m reach v = record {
    incoming = ap (with_left leaves) v.incoming;
    symbol = (put_side-fields is_bid s' b').0 ∙ v.symbol;
    callback = (put_side-fields is_bid s' b').1 ∙ v.callback;
    sum = λ cb.
        omega
          (arith, total_exec-fire m.book.match_cb m.reports r (v.callback ∙ cb), exec_of, v.sum cb);
    silent = λ cb. fire-none m.book.match_cb m.reports r (v.callback ∙ cb) (v.silent cb);
    left = omega (arith, v.left);
    reports =
        All-fire (IsReportOf b.symbol o) m.book.match_cb m.reports r v.reports
          (report-IsReportOf px m slot fill_qty leaves reach v);
    own = own-after m s' b'.slots m.book.index b'.stat_matches v;
  }
    where
      is_bid : Bool
      is_bid = passive_is_bid m.incoming

      s : Levels
      s = passive m

      slot : ℕ
      slot = s.head_idxs 0

      fill_qty : ℕ
      fill_qty = min m.incoming.qty_remaining (m.book.slots.qtys slot)

      leaves : ℕ
      leaves = m.incoming.qty_remaining - fill_qty

      s' : Levels
      s' = record s { qtys = update s.qtys 0 (sub32 (s.qtys 0) fill_qty) }

      b' : Book
      b' = record (m.book) {
        slots = record (m.book.slots) {
          qtys = update m.book.slots.qtys slot (m.book.slots.qtys slot - fill_qty);
        };
        stat_matches = add64 m.book.stat_matches 1;
      }

      r : ExecutionReport
      r = report_of m slot px fill_qty leaves

      exec_of : r.exec_qty ≡ fill_qty
      exec_of = unfold report_of in refl

  dequeue-IsProgress :
      (m : Matching) (slot : ℕ) {m' : Matching}
      → dequeue m slot ≡ some m'
      → IsProgress b o m
      → IsProgress b o m'
  unfolding dequeue
  dequeue-IsProgress m slot {m'} e v =
      elim (Option-cases (remove m.book.index (m.book.slots.ids slot))) [
        | inl n ↦ none-ne (rw (n, dequeue) at e)
        | inr (t, r) ↦ subst (IsProgress b o) (some-eq (rw (r, dequeue) at e)) (record {
          incoming = v.incoming;
          symbol = (put_side-fields is_bid _ _).0 ∙ v.symbol;
          callback = (put_side-fields is_bid _ _).1 ∙ v.callback;
          sum = v.sum;
          silent = v.silent;
          left = v.left;
          reports = v.reports;
          own =
              let (s, p) = advance_head (passive m) m.book.slots slot in
              own-after m s (free_slot p slot) t.0 m.book.stat_matches v;
        })
      ]
    where
      is_bid : Bool
      is_bid = passive_is_bid m.incoming

  pub fill_head-IsProgress :
      (px : Price) (m : Matching) {m' : Matching}
      → out_of_reach o px ≡ false
      → fill_head px m ≡ some m'
      → IsProgress b o m
      → IsProgress b o m'
  unfolding fill_head
  fill_head-IsProgress px m {m'} reach e v =
      elim (Bool-cases ((trade px m).book.slots.qtys ((passive m).head_idxs 0) == 0)) [
        | inl gone ↦
            dequeue-IsProgress (trade px m) ((passive m).head_idxs 0) (rw (gone, fill_head) at e)
              (trade-IsProgress px m reach v)
        | inr stays ↦
            subst (IsProgress b o) (some-eq (rw (stays, fill_head) at e))
              (trade-IsProgress px m reach v)
      ]
