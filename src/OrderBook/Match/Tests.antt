-- ===== src/OrderBook/Match/Tests.antt =====
-- Matching on a book with three orders on two levels.
use mathlib.Core.Path.{subst}
use options_engine.Prelude.{
  ℕ, ◌+◌, ◌≤◌, ◌<◌, ◌≡◌, ◌≢◌, refl, ap, sym, ◌∙◌, true, ltb, Option, none, some, List, [], ◌∷◌,
  arith, some-eq, if◌then◌else◌, ◌==◌,
}
use options_engine.Prelude.Int.{pos}
use options_engine.Prelude.Arrays.{Array, update}
use options_engine.Types.{Order, OrderType, OrderStatus, limit, fok, buy, uint32_max}
use options_engine.OrderBook.Levels.{Levels, null_idx}
use options_engine.OrderBook.Slots.{Slots}
use options_engine.OrderBook.Index
use options_engine.OrderBook.Index.{Table, table_size, insert}
use options_engine.OrderBook.Index.Finite.{Models, put, init-Models}
use options_engine.OrderBook.Index.Finite.Insert.{insert-Models}
use options_engine.OrderBook.State.{Book}
use options_engine.OrderBook.View.{levels, IsSide, IsIndex}
use options_engine.OrderBook.Match.{Matching, try_match}
use options_engine.OrderBook.Match.Refines.{IsSweepOf, try_match-sweep}
use options_engine.OrderBook.Liquidity.{available_liquidity}
use options_engine.OrderBook.Liquidity.Refines.{available_liquidity-available}
use options_engine.OrderBook.Orders.{Outcome, add_order}
use options_engine.OrderBook.Orders.AllOrNone.{AllOrNone, add_order-AllOrNone}
use options_engine.Reference.{RefLevel, Swept, taker, sweep, available}

-- Slots 0 and 1 offer 5 and 4 at 100, slot 2 offers 6 at 101.
abbrev nexts : Array ℕ
nexts i = if i == 0 then 1 else null_idx

abbrev asks : Levels
asks = record {
  prices = λ i. if i == 0 then pos 100 else pos 101;
  qtys = λ i. if i == 0 then 9 else 6;
  order_counts = λ i. if i == 0 then 2 else 1;
  head_idxs = λ i. if i == 0 then 0 else 2;
  tail_idxs = λ i. if i == 0 then 1 else 2;
  count = 2;
}

abbrev slots : Slots
slots = record {
  ids = λ i. i + 11;
  qtys = λ i. if i == 0 then 5 else if i == 1 then 4 else 6;
  nexts = nexts;
  prevs = λ i. if i == 1 then 0 else null_idx;
  free_nexts = λ _. null_idx;
  prices = λ i. if i == 2 then pos 101 else pos 100;
  accounts = λ i. i + 1;
  free_head = null_idx;
  used = 3;
}

abbrev index1 : Table
index1 = update Index.init (Index.home 11) (record { key = 11; slot = 0; side = 1 })

abbrev index2 : Table
index2 = update index1 (Index.home 12) (record { key = 12; slot = 1; side = 1 })

abbrev index3 : Table
index3 = update index2 (Index.home 13) (record { key = 13; slot = 2; side = 1 })

-- The table that `insert` makes of one with at most `k` ids has at most one more.
abbrev Holds : Table → ℕ → Type 0
Holds t k = (n : ℕ) × (f : ℕ → Option (ℕ × ℕ)) × (n ≤ k) × Models t n f

Holds-insert :
    (t t' : Table) (k id slot side : ℕ)
    → insert t id slot side ≡ some (t', true)
    → k + 1 < table_size
    → slot ≢ Index.empty_slot
    → Holds t k
    → Holds t' (k + 1)
Holds-insert t t' k id slot side e room real (n, f, le, v) =
    let (u, n', ends, c, w) = insert-Models t n f id slot side v (omega arith) real in
    let same : u ≡ t' = ap (λ x. x.0) (some-eq (sym ends ∙ e)) in
    (n', _, omega (arith, c), subst (λ x. Models x n' (put f id (some (slot, side)))) same w)

index3-Holds : Holds index3 3
unfolding insert Index.probe Index.probe_from Index.taken_by_other Index.init Index.home update
index3-Holds = Holds-insert index2 index3 2 13 2 1 refl (omega arith) (omega arith) (
    Holds-insert index1 index2 1 12 1 1 refl (omega arith) (omega arith) (
      Holds-insert Index.init index1 0 11 0 1 refl (omega arith) (omega arith)
        (0, (λ _. none), omega arith, init-Models)))

index3-IsIndex : IsIndex index3
index3-IsIndex = let (n, f, le, v) = index3-Holds in (n, f, omega arith, v)

abbrev book : Book
book = record {
  match_cb = true;
  symbol = 3;
  bids = record asks { count = 0 };
  asks = asks;
  slots = slots;
  index = index3;
  stat_orders = 3;
  stat_matches = 0;
  stat_cancelled = 0;
  stat_rejected = 0;
  stat_self_trade_prevented = 0;
}

abbrev queues : List (List ℕ)
queues = (0 ∷ 1 ∷ []) ∷ (2 ∷ []) ∷ []

asks-IsSide : IsSide asks slots queues
asks-IsSide = record {
  count = refl;
  small = omega arith;
  queues = (
    record {
      chain = (refl, omega arith, (refl, omega arith, refl));
      counted = refl;
      distinct = ((omega arith, tt), (tt, tt));
    },
    (λ e. absurd (no e)),
    omega arith,
    (((omega arith, (omega arith, tt)), tt), tt),
    (
      record { chain = (refl, omega arith, refl); counted = refl; distinct = (tt, tt) },
      (λ e. absurd (no e)),
      omega arith,
      tt,
      tt,
    ),
  );
}
  where
    no : {y : ℕ} {ys : List ℕ} → y ∷ ys ≡ [] → ⊥
    no e = cc

-- A buy of account 3 at up to 101; the order in slot 2 is of the same account.
abbrev order : OrderType → ℕ → Order
order t qty = record {
  id = 20;
  price = pos 101;
  qty = qty;
  qty_remaining = qty;
  symbol = 3;
  account_id = 3;
  side = buy;
  type = t;
  status = OrderStatus.new;
}

abbrev offered : List RefLevel
offered = levels asks slots 0 queues

abbrev swept : ℕ → Swept (List RefLevel)
swept qty = sweep (taker (order limit qty)) qty offered

narrow : (x : ℕ) → slots.qtys x ≤ uint32_max
narrow x = ground arith

-- Twelve are wanted; nine are filled before the wall.
try_match-sweep_example :
    (m : Matching) × (qs' : List (List ℕ)) × (try_match book (order limit 12)
      ≡ some (m, (swept 12).walled))
    × IsSweepOf (order limit 12) (swept 12) m qs'
try_match-sweep_example =
    try_match-sweep book (order limit 12) queues refl asks-IsSide index3-IsIndex

swept_walled : ((swept 12).walled ≡ true) × ((swept 12).left ≡ 3)
unfolding sweep
swept_walled = (refl, refl)

available_liquidity-available_example :
    (liquid : ℕ) × (available_liquidity book (order fok 12) ≡ some liquid)
    × (ltb liquid 12 ≡ ltb (available (taker (order fok 12)) 0 offered) 12)
available_liquidity-available_example =
    available_liquidity-available book (order fok 12) queues refl (omega arith) (omega arith) narrow
      asks-IsSide

add_order-AllOrNone_example :
    (out : Outcome) × (add_order book (order fok 7) ≡ some out)
    × AllOrNone book (order fok 7) offered out
add_order-AllOrNone_example =
    add_order-AllOrNone book (order fok 7) queues refl (omega arith) (omega arith) narrow refl
      asks-IsSide index3-IsIndex
