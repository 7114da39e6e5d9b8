-- ===== src/Reference.antt =====
-- tests/test_conservation.cpp, `RefBook`: the book as price levels with queues, written from the spec.
-- A `std::map` is its entries in order, best price first; `descending` stands for `std::greater`.
-- The model's 32-bit sums do not wrap while a level holds less than 2 ^ 32.
pub mod Sweep
pub mod Edit
mod Tests
pub mod Uncrossed
pub mod Accounts
pub mod AllOrNone
use options_engine.Prelude.{
  ℕ, zero, suc, ◌+◌, ◌-◌, Bool, true, false, ◌&&◌, not, Option, none, some, List, [], ◌∷◌, ◌++◌,
  min, ltb, leb, ◌==◌, if◌then◌else◌,
}
use options_engine.Prelude.Int.{eqb_ℤ}
use options_engine.Types.{
  Price, Qty, OrderId, Order, is_buy, is_market, is_limit, is_fok, uint32_max,
}
use options_engine.OrderBook.Levels.{before}

pub record RefOrder : Type 0 where
  pub id : OrderId
  pub rem : Qty
  pub account : ℕ

pub record Fill : Type 0 where
  pub aggr : OrderId
  pub passive : OrderId
  pub px : Price
  pub qty : Qty

pub record RefLevel : Type 0 where
  pub px : Price
  pub queue : List RefOrder

-- What a sweep takes with it: the order, its limit if it has one, and its account.
pub record Taker : Type 0 where
  pub id : OrderId
  pub limit : Price
  pub is_buy : Bool
  pub limited : Bool
  pub account : ℕ

abbrev pub beyond : Bool → Price → Price → Bool
beyond is_buy limit px = before (not is_buy) limit px

abbrev pub is_wall : ℕ → RefOrder → Bool
is_wall account o = not (account == 0) && account == o.account

-- What is left of the side and of the quantity, the fills, whether a wall was met, and how many orders
-- were popped.
pub record Swept (B : Type 0) : Type 0 where
  pub side : B
  pub left : Qty
  pub fills : List Fill
  pub walled : Bool
  pub popped : ℕ

-- The inner loop of `sweep`: each round fills at the front, and drops the front when it is used up.
unfoldable pub sweep_queue : Taker → Price → Qty → List RefOrder → Swept (List RefOrder)
sweep_queue t px qty [] = record { side = []; left = qty; fills = []; walled = false; popped = 0 }
sweep_queue t px qty (o ∷ q) =
    let f = min qty o.rem in
    let fill : Fill = record { aggr = t.id; passive = o.id; px = px; qty = f } in
    let rest = sweep_queue t px (qty - f) q in
    if qty == 0
    then record { side = o ∷ q; left = qty; fills = []; walled = false; popped = 0 }
    else if is_wall t.account o
    then record { side = o ∷ q; left = qty; fills = []; walled = true; popped = 0 }
    else if o.rem == f
    then record rest { fills = fill ∷ rest.fills; popped = suc rest.popped }
    else record {
      side = record o { rem = o.rem - f } ∷ q;
      left = qty - f;
      fills = fill ∷ [];
      walled = false;
      popped = 0;
    }

abbrev pub keep_level : Price → List RefOrder → List RefLevel → List RefLevel
keep_level px [] ls = ls
keep_level px (o ∷ q) ls = record { px = px; queue = o ∷ q } ∷ ls

-- The outer loop. It goes on to the next level only when the queue is used up.
unfoldable pub sweep : Taker → Qty → List RefLevel → Swept (List RefLevel)
unfolding sweep_queue
sweep t qty [] = record { side = []; left = qty; fills = []; walled = false; popped = 0 }
sweep t qty (l ∷ ls) =
    let w = sweep_queue t l.px qty l.queue in
    let rest = sweep t w.left ls in
    if qty == 0
    then record { side = l ∷ ls; left = qty; fills = []; walled = false; popped = 0 }
    else if t.limited && beyond t.is_buy t.limit l.px
    then record { side = l ∷ ls; left = qty; fills = []; walled = false; popped = 0 }
    else elim w.side [
      | [] ↦ record rest { fills = w.fills ++ rest.fills; popped = w.popped + rest.popped }
      | o ∷ q ↦ record {
        side = record { px = l.px; queue = o ∷ q } ∷ ls;
        left = w.left;
        fills = w.fills;
        walled = w.walled;
        popped = w.popped;
      }
    ]

-- The inner loop of `available`; the flag says that it returns at a wall.
unfoldable pub available_queue : ℕ → Qty → List RefOrder → Qty × Bool
available_queue account total [] = (total, false)
available_queue account total (o ∷ q) =
    if is_wall account o
    then (total, true)
    else available_queue account (min (total + o.rem) uint32_max) q

unfoldable pub available : Taker → Qty → List RefLevel → Qty
unfolding available_queue
available t total [] = total
available t total (l ∷ ls) =
    let (total', stopped) = available_queue t.account total l.queue in
    let rest = available t total' ls in
    if beyond t.is_buy t.limit l.px then total else if stopped then total' else rest

-- `side[px].push_back(o)`
unfoldable pub push_back : Bool → Price → RefOrder → List RefLevel → List RefLevel
push_back desc px o [] = record { px = px; queue = o ∷ [] } ∷ []
push_back desc px o (l ∷ ls) =
    if before desc l.px px
    then l ∷ push_back desc px o ls
    else if eqb_ℤ l.px px
    then record l { queue = l.queue ++ o ∷ [] } ∷ ls
    else record { px = px; queue = o ∷ [] } ∷ l ∷ ls

pub record RefBook : Type 0 where
  pub bids : List RefLevel
  pub asks : List RefLevel
  pub fills : List Fill
  pub resting_count : ℕ

pub record RefOutcome : Type 0 where
  pub resting : Qty
  pub filled : Qty
  pub rejected : Bool
  pub capacity_rejected : Bool

abbrev pub taker : Order → Taker
taker o = record {
  id = o.id;
  limit = o.price;
  is_buy = is_buy o.side;
  limited = not (is_market o.type);
  account = o.account_id;
}

abbrev pub passive_side : Bool → RefBook → List RefLevel
passive_side true b = b.asks
passive_side false b = b.bids

abbrev pub put_passive : Bool → List RefLevel → RefBook → RefBook
put_passive true s b = record b { asks = s }
put_passive false s b = record b { bids = s }

abbrev pub own_side : Bool → RefBook → List RefLevel
own_side true b = b.bids
own_side false b = b.asks

abbrev pub put_own : Bool → List RefLevel → RefBook → RefBook
put_own true s b = record b { bids = s }
put_own false s b = record b { asks = s }

-- `--resting_count` at each `pop_front`.
unfoldable pub after_sweep : RefBook → Order → Swept (List RefLevel) → RefBook
after_sweep b o w =
    put_passive (is_buy o.side) w.side
      (record b { fills = b.fills ++ w.fills; resting_count = b.resting_count - w.popped })

abbrev pub outcome : Qty → Qty → Bool → Bool → RefOutcome
outcome resting filled rejected capacity_rejected = record {
  resting = resting;
  filled = filled;
  rejected = rejected;
  capacity_rejected = capacity_rejected;
}

-- `add`, past the fill-or-kill test.
unfoldable pub add_swept : ℕ → RefBook → Order → RefBook × RefOutcome
unfolding after_sweep sweep push_back
add_swept max_orders b o =
    let buy = is_buy o.side in
    let w = sweep (taker o) o.qty (passive_side buy b) in
    let b' = after_sweep b o w in
    let filled = o.qty - w.left in
    let entry : RefOrder = record { id = o.id; rem = w.left; account = o.account_id } in
    let booked = put_own buy (push_back buy o.price entry (own_side buy b')) b' in
    if ltb 0 w.left && is_limit o.type && not w.walled
    then if leb max_orders b'.resting_count then (b', outcome 0 filled false true) else (
      record booked { resting_count = b'.resting_count + 1 },
      outcome w.left filled false false,
    )
    else (b', outcome 0 filled false false)

unfoldable pub add : ℕ → RefBook → Order → RefBook × RefOutcome
unfolding add_swept available
add max_orders b o =
    let avail = available (taker o) 0 (passive_side (is_buy o.side) b) in
    if is_fok o.type && ltb avail o.qty
    then (b, outcome 0 0 true false)
    else add_swept max_orders b o
