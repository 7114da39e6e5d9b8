-- ===== src/OrderBook/Match/Fills.antt =====
-- The loops of `try_match`, whatever the book holds.
use options_engine.Prelude.{
  ℕ, zero, suc, ◌+◌, ◌≡◌, refl, inl, inr, Bool, true, false, some, [], arith, ◌==◌, Bool-cases,
  Option-cases, ◌∙◌, some-eq, none-ne, sym,
}
use mathlib.Core.Path.{subst}
use options_engine.Types.{Price, Order}
use options_engine.OrderBook.Levels.{max_levels, null_idx, remove_level}
use options_engine.OrderBook.Slots.{max_orders}
use options_engine.OrderBook.State.{Book}
use options_engine.OrderBook.Match.{
  Matching, passive, passive_is_bid, out_of_reach, same_account, fill_head, sweep_level,
  drop_exhausted, match_loop, try_match,
}
use options_engine.OrderBook.Match.Progress.{
  IsProgress, own-after, reach-incoming, fill_head-IsProgress, put_side-fields,
}

module _ {b : Book} {o : Order} where
  sweep_level-IsProgress :
      (f : ℕ) (px : Price) (m : Matching) {r : Matching × Bool}
      → out_of_reach o px ≡ false
      → sweep_level f px m ≡ some r
      → IsProgress b o m
      → IsProgress b o r.0
  unfolding sweep_level
  sweep_level-IsProgress zero px m reach e v = none-ne e
  sweep_level-IsProgress (suc f) px m {r} reach e v =
      elim (Bool-cases ((passive m).head_idxs 0 == null_idx)) [
        | inl t ↦ subst At (some-eq (rw (t, sweep_level) at e)) v
        | inr t ↦ elim (Bool-cases (m.incoming.qty_remaining == 0)) [
          | inl u ↦ subst At (some-eq (rw (t, u, sweep_level) at e)) v
          | inr u ↦
              elim (Bool-cases (same_account m.incoming m.book.slots ((passive m).head_idxs 0))) [
                | inl w ↦ subst At (some-eq (rw (t, u, w, sweep_level) at e)) v
                | inr w ↦ elim (Option-cases (fill_head px m)) [
                  | inl n ↦ none-ne (rw (t, u, w, n, sweep_level) at e)
                  | inr (m', n) ↦
                      sweep_level-IsProgress f px m' reach (rw (t, u, w, n, sweep_level) at e)
                        (fill_head-IsProgress px m reach n v)
                ]
              ]
        ]
      ]
    where
      At : Matching × Bool → Type 0
      At r = IsProgress b o r.0

  drop_exhausted-IsProgress : (m : Matching) → IsProgress b o m → IsProgress b o (drop_exhausted m)
  unfolding drop_exhausted
  drop_exhausted-IsProgress m v = elim (Bool-cases ((passive m).order_counts 0 == 0)) [
    | inl t ↦
        rw (t, drop_exhausted)
          (record {
            incoming = v.incoming;
            symbol = (put_side-fields (passive_is_bid m.incoming) _ _).0 ∙ v.symbol;
            callback = (put_side-fields (passive_is_bid m.incoming) _ _).1 ∙ v.callback;
            sum = v.sum;
            silent = v.silent;
            left = v.left;
            reports = v.reports;
            own =
                own-after m (remove_level (passive m) 0) m.book.slots m.book.index
                  m.book.stat_matches v;
          })
    | inr t ↦ rw (t, drop_exhausted) v
  ]

  match_loop-IsProgress :
      (orders f : ℕ) (m : Matching) {r : Matching × Bool}
      → match_loop orders f m ≡ some r
      → IsProgress b o m
      → IsProgress b o r.0
  unfolding match_loop
  match_loop-IsProgress orders zero m e v = none-ne e
  match_loop-IsProgress orders (suc f) m {r} e v =
      elim (Bool-cases (m.incoming.qty_remaining == 0)) [
        | inl t ↦ subst At (some-eq (rw (t, match_loop) at e)) v
        | inr t ↦ elim (Bool-cases ((passive m).count == 0)) [
          | inl u ↦ subst At (some-eq (rw (t, u, match_loop) at e)) v
          | inr u ↦ elim (Bool-cases (out_of_reach m.incoming ((passive m).prices 0))) [
            | inl w ↦ subst At (some-eq (rw (t, u, w, match_loop) at e)) v
            | inr w ↦
                let reach = sym (reach-incoming m ((passive m).prices 0) v) ∙ w in
                elim (Option-cases (sweep_level orders ((passive m).prices 0) m)) [
                  | inl n ↦ none-ne (rw (t, u, w, n, match_loop) at e)
                  | inr ((m', true), n) ↦
                      subst At (some-eq (rw (t, u, w, n, match_loop) at e))
                        (sweep_level-IsProgress orders ((passive m).prices 0) m reach n v)
                  | inr ((m', false), n) ↦
                      match_loop-IsProgress orders f (drop_exhausted m')
                        (rw (t, u, w, n, match_loop) at e)
                        (drop_exhausted-IsProgress m'
                          (sweep_level-IsProgress orders ((passive m).prices 0) m reach n v))
                ]
          ]
        ]
      ]
    where
      At : Matching × Bool → Type 0
      At r = IsProgress b o r.0

-- However `try_match` ends, the reports it fired are all reports of the incoming order, at prices that
-- the order accepts, and their quantities and what is left of the order add up to its quantity.
pub try_match-IsProgress :
    (b : Book) (o : Order) {m : Matching} {walled : Bool}
    → try_match b o ≡ some (m, walled)
    → IsProgress b o m
unfolding try_match
try_match-IsProgress b o e =
    match_loop-IsProgress (max_orders + 1) (max_levels + 1)
      (record { book = b; incoming = o; reports = [] }) e
      (record {
        incoming = refl;
        symbol = refl;
        callback = refl;
        sum = λ _. omega arith;
        silent = λ _. refl;
        left = omega arith;
        reports = tt;
        own = refl;
      })
