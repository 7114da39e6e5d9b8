-- ===== src/Reference/Tests.antt =====
-- The reference book's theorems on a book with two asks and one bid.
use options_engine.Prelude.{ℕ, ◌+◌, ◌≡◌, refl, [], ◌∷◌, arith}
use options_engine.Prelude.Int.{pos}
use options_engine.Types.{Order, OrderStatus, OrderType, limit, fok, buy}
use options_engine.Reference.{RefOrder, RefBook, taker, sweep, add}
use options_engine.Reference.Sweep.{fills_total, side_total, side_orders, sweep-conserves}
use options_engine.Prelude.{some}
use options_engine.Reference.Edit.{cancel}
use options_engine.Reference.Edit.Cancel.{IsCancelled, cancel-IsCancelled}
use options_engine.Reference.Accounts.{IsAccounted, add-IsAccounted}
use options_engine.Reference.AllOrNone.{AllOrNone, add-AllOrNone}
use options_engine.Reference.Uncrossed.Add.{IsUncrossed, add-IsUncrossed}

abbrev resting : ℕ → ℕ → RefOrder
resting id rem = record { id = id; rem = rem; account = id }

abbrev book : RefBook
book = record {
  bids = record { px = pos 99; queue = resting 1 4 ∷ [] } ∷ [];
  asks =
      record { px = pos 100; queue = resting 2 5 ∷ resting 3 2 ∷ [] }
      ∷ record { px = pos 102; queue = resting 4 6 ∷ [] }
      ∷ [];
  fills = [];
  resting_count = 4;
}

-- A buy of `qty` up to 101.
abbrev order : OrderType → ℕ → Order
order t qty = record {
  id = 9;
  price = pos 101;
  qty = qty;
  qty_remaining = qty;
  symbol = 1;
  account_id = 9;
  side = buy;
  type = t;
  status = OrderStatus.new;
}

sweep-conserves_example :
    let w = sweep (taker (order limit 10)) 10 book.asks in
    (fills_total w.fills + w.left ≡ 10)
    × (fills_total w.fills + side_total w.side ≡ 13)
    × (w.popped + side_orders w.side ≡ 3)
sweep-conserves_example = sweep-conserves (taker (order limit 10)) 10 book.asks

-- Seven of the ten are bought, and three booked at 101.
ten_limit :
    ((add 100 book (order limit 10)).1.filled ≡ 7) × ((add 100 book (order limit 10)).1.resting ≡ 3)
unfolding add
ten_limit = (refl, refl)

add-IsAccounted_example : IsAccounted book 10 (add 100 book (order limit 10))
add-IsAccounted_example = add-IsAccounted 100 book (order limit 10) refl

add-AllOrNone_example : AllOrNone book (order fok 7) (add 100 book (order fok 7))
add-AllOrNone_example = add-AllOrNone 100 book (order fok 7) refl (omega arith)

book-IsUncrossed : IsUncrossed book
book-IsUncrossed = record {
  bids = (tt, tt);
  asks = ((refl, tt), (tt, tt));
  apart = ((refl, (refl, tt)), tt);
}

add-IsUncrossed_example : IsUncrossed (add 100 book (order limit 10)).0
add-IsUncrossed_example = add-IsUncrossed 100 book (order limit 10) book-IsUncrossed

-- Order 3 rests, and is taken out of its queue.
cancel_three : (cancel book 3).1 ≡ some 2
unfolding cancel
cancel_three = refl

cancel-IsCancelled_example : IsCancelled book (cancel book 3)
cancel-IsCancelled_example = cancel-IsCancelled book 3 refl
