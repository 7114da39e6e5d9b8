-- ===== src/OrderBook/Tests.antt =====
-- The book's theorems on small books and orders.
use options_engine.Prelude.{
  ℕ, ◌≤◌, ◌<◌, ◌≡◌, refl, Bool, true, false, Option, none, some, [], ◌∷◌, arith,
}
use options_engine.Prelude.Int.{pos}
use options_engine.Prelude.Words.{add32, add64}
use options_engine.Types.{Order, OrderStatus, OrderType, limit, fok, buy}
use options_engine.OrderBook.Levels.{
  Levels, null_idx, find_level, find_level_avx2, scan, insert_level, remove_level,
}
use options_engine.OrderBook.Levels.Find.{find_level_avx2-find_level}
use options_engine.OrderBook.Levels.Shift.{row, IsSorted}
use options_engine.OrderBook.Levels.Sorted.{
  remove-insert_level, insert_level-IsSorted, remove_level-IsSorted,
}
use options_engine.OrderBook.Slots.{Slots, init, alloc, free_slot}
use options_engine.OrderBook.Slots.FreeList.{
  init-IsPool, IsPool, Absent, init-IsPool, alloc-IsPool, free_slot-IsPool,
}
use options_engine.OrderBook.Index
use options_engine.OrderBook.State.{Book}
use options_engine.Prelude.Arrays.{update}
use options_engine.OrderBook.Match.{try_match}
use options_engine.OrderBook.Liquidity.{available_liquidity}
use options_engine.OrderBook.Match.Reports.{All, total_exec, IsReportOf}
use options_engine.OrderBook.Orders.{Outcome, reject, add_order}
use options_engine.OrderBook.Orders.Fills.{
  add_order-reports, immediate_never_rests, refused_immediate_atomic,
}

-- A side whose one level, at 100, holds the 5 shares of slot 0.
abbrev one_level : Levels
one_level = record {
  prices = λ _. pos 100;
  qtys = λ _. 5;
  order_counts = λ _. 1;
  head_idxs = λ _. 0;
  tail_idxs = λ _. 0;
  count = 1;
}

abbrev one_slot : Slots
one_slot = record {
  ids = λ _. 7;
  qtys = λ _. 5;
  nexts = λ _. null_idx;
  prevs = λ _. null_idx;
  free_nexts = λ _. null_idx;
  prices = λ _. pos 100;
  accounts = λ _. 1;
  free_head = null_idx;
  used = 1;
}

-- 5 offered at 100, and nothing bid.
abbrev book : Book
book = record {
  match_cb = true;
  symbol = 3;
  bids = record one_level { count = 0 };
  asks = one_level;
  slots = one_slot;
  index = Index.init;
  stat_orders = 1;
  stat_matches = 0;
  stat_cancelled = 0;
  stat_rejected = 0;
  stat_self_trade_prevented = 0;
}

abbrev order : OrderType → ℕ → Order
order t qty = record {
  id = 8;
  price = pos 101;
  qty = qty;
  qty_remaining = qty;
  symbol = 3;
  account_id = 2;
  side = buy;
  type = t;
  status = OrderStatus.new;
}

is_some {ℓ} : {A : Type ℓ} → Option A → Bool
is_some none = false
is_some (some a) = true

get {ℓ} : {A : Type ℓ} → A → Option A → A
get d none = d
get d (some a) = a

returns {ℓ} : {A : Type ℓ} (d : A) (r : Option A) → is_some r ≡ true → r ≡ some (get d r)
unfolding is_some get
returns d none e = cc
returns d (some a) e = refl

abbrev run : OrderType → ℕ → Outcome
run t qty = get (reject book []) (add_order book (order t qty))

run-eq :
    (t : OrderType) (qty : ℕ)
    → is_some (add_order book (order t qty)) ≡ true
    → add_order book (order t qty) ≡ some (run t qty)
run-eq t qty e = returns (reject book []) (add_order book (order t qty)) e

buy_three : add_order book (order limit 3) ≡ some (run limit 3)
unfolding is_some add_order try_match available_liquidity update add64
buy_three = run-eq limit 3 refl

kill_nine : add_order book (order fok 9) ≡ some (run fok 9)
unfolding is_some add_order try_match available_liquidity update add64
kill_nine = run-eq fok 9 refl

kill_four : add_order book (order fok 4) ≡ some (run fok 4)
unfolding is_some add_order try_match available_liquidity update add64
kill_four = run-eq fok 4 refl

three_traded : total_exec (run limit 3).reports ≡ 3
unfolding get add_order try_match available_liquidity update add64
three_traded = refl

nine_refused : (run fok 9).result ≡ false
unfolding get add_order try_match available_liquidity update add64
nine_refused = refl

-- Three of the five are bought.
add_order-reports_example :
    All (IsReportOf 3 (order limit 3)) (run limit 3).reports
    × (total_exec (run limit 3).reports ≤ 3)
add_order-reports_example = add_order-reports book (order limit 3) refl buy_three

-- Four of the five are bought, and nothing is bid.
immediate_never_rests_example : (run fok 4).book.bids ≡ book.bids
immediate_never_rests_example = immediate_never_rests book (order fok 4) refl kill_four

-- Nine cannot be had.
refused_immediate_atomic_example :
    (true ≡ true)
    × ((run fok 9).reports ≡ [])
    × ((run fok 9).book ≡ record book { stat_orders = add64 1 1; stat_rejected = add64 0 1 })
refused_immediate_atomic_example =
    refused_immediate_atomic book (order fok 9) refl kill_nine nine_refused

find_level_avx2-find_level_example :
    find_level_avx2 one_level.prices one_level.count (pos 100) ≡ find_level one_level (pos 100)
find_level_avx2-find_level_example = find_level_avx2-find_level one_level (pos 100)

one_level-IsSorted : IsSorted true one_level
one_level-IsSorted i j lt hi = absurd (omega arith)

no_level : Levels × ℕ
no_level = (one_level, 0)

abbrev two_levels : Levels × ℕ
two_levels = get no_level (insert_level one_level (pos 105) true)

two_levels-eq : insert_level one_level (pos 105) true ≡ some (two_levels.0, two_levels.1)
unfolding is_some insert_level get
two_levels-eq = returns no_level (insert_level one_level (pos 105) true) refl

absent_105 : find_level one_level (pos 105) ≡ none
unfolding find_level scan
absent_105 = refl

insert_level-IsSorted_example : IsSorted true two_levels.0
insert_level-IsSorted_example =
    insert_level-IsSorted one_level (pos 105) true one_level-IsSorted absent_105 two_levels-eq

remove_level-IsSorted_example : IsSorted true (remove_level one_level 0)
remove_level-IsSorted_example =
    remove_level-IsSorted one_level 0 true (omega arith) one_level-IsSorted

remove-insert_level_example :
    ((remove_level two_levels.0 two_levels.1).count ≡ 1)
    × ((j : ℕ) → j < 1 → row (remove_level two_levels.0 two_levels.1) j ≡ row one_level j)
remove-insert_level_example = remove-insert_level one_level (pos 105) true two_levels-eq

one_slot-IsPool : IsPool (init 3 one_slot) 3 (0 ∷ 1 ∷ 2 ∷ [])
one_slot-IsPool = init-IsPool 2 one_slot (omega arith)

alloc-IsPool_example :
    ((alloc (init 3 one_slot)).1 ≡ 0)
    × (0 < 3)
    × Absent 0 (1 ∷ 2 ∷ [])
    × IsPool (alloc (init 3 one_slot)).0 3 (1 ∷ 2 ∷ [])
alloc-IsPool_example = alloc-IsPool (init 3 one_slot) 3 (0 ∷ 1 ∷ 2 ∷ []) one_slot-IsPool

used_some : 0 < (alloc (init 3 one_slot)).0.used
unfolding alloc init add32
used_some = omega arith

free_slot-IsPool_example : IsPool (free_slot (alloc (init 3 one_slot)).0 0) 3 (0 ∷ 1 ∷ 2 ∷ [])
free_slot-IsPool_example =
    let taken = alloc-IsPool (init 3 one_slot) 3 (0 ∷ 1 ∷ 2 ∷ []) one_slot-IsPool in
    free_slot-IsPool (alloc (init 3 one_slot)).0 3 (1 ∷ 2 ∷ []) 0 taken.3 (omega arith) taken.2
      used_some
