-- ===== src/OrderBook/Orders.antt =====
-- src/core/order_book.cpp: `add_order`, `cancel_order` and `modify_order`.
-- `none` means that a loop did not end within its fuel.
pub mod Fills
pub mod AllOrNone
use options_engine.Prelude.{
  ℕ, zero, suc, ◌+◌, ◌-◌, Bool, true, false, ◌&&◌, Option, none, some, List, [], ltb, ◌==◌,
  if◌then◌else◌,
}
use options_engine.Prelude.Words.{add32, sub32, add64}
use options_engine.Prelude.Arrays.{update}
use options_engine.Types.{
  Order, OrderId, Qty, is_buy, is_filled, is_fok, is_immediate, ExecutionReport,
}
use options_engine.OrderBook.Levels.{Levels, null_idx, find_level, insert_level, remove_level}
use options_engine.OrderBook.Slots.{Slots, alloc}
use options_engine.OrderBook.Index
use options_engine.OrderBook.State.{Book, side_of, put_side, unlink, remove_order_from_level}
use options_engine.OrderBook.Match.{Matching, try_match}
use options_engine.OrderBook.Liquidity.{available_liquidity}

-- What an operation leaves: the book, what it returns, and the reports it fired.
pub record Outcome : Type 0 where
  pub book : Book
  pub result : Bool
  pub reports : List ExecutionReport

abbrev pub reject : Book → List ExecutionReport → Outcome
reject b rs = record {
  book = record b { stat_rejected = add64 b.stat_rejected 1 };
  result = false;
  reports = rs;
}

-- The level of the order's price, made if need be, and whether it was made.
unfoldable pub level_for : Levels → Order → Option (Levels × ℕ × Bool)
level_for s o = elim (find_level s o.price) [
  | some lvl ↦ some (s, lvl, false)
  | none ↦ elim (insert_level s o.price (is_buy o.side)) [
    | none ↦ none
    | some (s', lvl) ↦ some (s', lvl, true)
  ]
]

-- The fields of the new slot, then the append at the level's tail and its sums.
unfoldable pub append_order : Levels → Slots → ℕ → ℕ → Order → Levels × Slots
append_order s p lvl slot o =
    let p1 = record p {
      ids = update p.ids slot o.id;
      accounts = update p.accounts slot o.account_id;
      qtys = update p.qtys slot o.qty_remaining;
      nexts = update p.nexts slot null_idx;
      prices = update p.prices slot o.price;
    } in
    let first = s.head_idxs lvl == null_idx in
    let old_tail = s.tail_idxs lvl in
    (
      record s {
        head_idxs = if first then update s.head_idxs lvl slot else s.head_idxs;
        tail_idxs = update s.tail_idxs lvl slot;
        qtys = update s.qtys lvl (add32 (s.qtys lvl) o.qty_remaining);
        order_counts = update s.order_counts lvl (add32 (s.order_counts lvl) 1);
      },
      record p1 {
        nexts = if first then p1.nexts else update p1.nexts old_tail slot;
        prevs = update p1.prevs slot (if first then null_idx else old_tail);
      },
    )

-- The end of `add_order`: book what is left of the order.
unfoldable pub rest_order : Book → Order → List ExecutionReport → Option Outcome
unfolding level_for append_order
rest_order b o rs =
    let is_bid = is_buy o.side in
    elim (level_for (side_of is_bid b) o) [
      | none ↦ some (reject b rs)
      | some (s, lvl, created) ↦
          let (p, slot) = alloc b.slots in
          let undone = if created then remove_level s lvl else s in
          let (s', p') = append_order s p lvl slot o in
          let booked : Option Outcome =
            elim (Index.insert b.index o.id slot (if is_bid then 0 else 1)) [
              | none ↦ none
              | some (t, _) ↦ some (record {
                book = put_side is_bid s' (record b { slots = p'; index = t });
                result = true;
                reports = rs;
              })
            ] in
          if slot == null_idx then some (reject (put_side is_bid undone b) rs) else booked
    ]

-- Past the matching of an order that may rest.
unfoldable pub after_match : Matching → Bool → Option Outcome
unfolding rest_order
after_match m walled =
    let b = m.book in
    let prevented = record b { stat_self_trade_prevented = add64 b.stat_self_trade_prevented 1 } in
    if is_filled m.incoming
    then some (record { book = b; result = true; reports = m.reports })
    else if walled
    then some (record { book = prevented; result = true; reports = m.reports })
    else rest_order b m.incoming m.reports

-- Market, IOC and FOK.
unfoldable pub add_immediate : Book → Order → Option Outcome
add_immediate b o =
    let run : Option Outcome = elim (try_match b o) [
      | none ↦ none
      | some (m, _) ↦ some (record { book = m.book; result = true; reports = m.reports })
    ] in
    if is_fok o.type
    then elim (available_liquidity b o) [
      | none ↦ none
      | some liquid ↦ if ltb liquid o.qty_remaining then some (reject b []) else run
    ]
    else run

unfoldable pub add_order : Book → Order → Option Outcome
unfolding add_immediate after_match
add_order b o =
    let b' = record b { stat_orders = add64 b.stat_orders 1 } in
    if is_immediate o.type
    then add_immediate b' o
    else elim (try_match b' o) [ none ↦ none | some (m, walled) ↦ after_match m walled ]

abbrev pub drop_id : Book → OrderId → Bool → Option (Book × Bool)
drop_id b id result = elim (Index.remove b.index id) [
  | none ↦ none
  | some (t, _) ↦ some (record b { index = t }, result)
]

unfoldable pub cancel_order : Book → OrderId → Option (Book × Bool)
cancel_order b id = elim (Index.lookup b.index id) [
  | none ↦ none
  | some none ↦ some (b, false)
  | some (some (slot, side_idx)) ↦
      let is_bid = side_idx == 0 in
      elim (find_level (side_of is_bid b) (b.slots.prices slot)) [
        | none ↦ drop_id b id false
        | some lvl ↦
            let b' = remove_order_from_level b is_bid lvl slot in
            drop_id (record b' { stat_cancelled = add64 b'.stat_cancelled 1 }) id true
      ]
]

-- The increase of `modify_order`: unlink, and append again at the tail.
unfoldable pub requeue : Levels → Slots → ℕ → ℕ → Levels × Slots
requeue s p lvl slot =
    let (s1, p1) = unlink s p lvl slot in
    let first = s1.head_idxs lvl == null_idx in
    let old_tail = s1.tail_idxs lvl in
    (
      record s1 {
        head_idxs = if first then update s1.head_idxs lvl slot else s1.head_idxs;
        tail_idxs = update s1.tail_idxs lvl slot;
      },
      record p1 {
        nexts = update (if first then p1.nexts else update p1.nexts old_tail slot) slot null_idx;
        prevs = update p1.prevs slot (if first then null_idx else old_tail);
      },
    )

unfoldable pub increase_order : Book → Bool → ℕ → ℕ → Qty → Book
unfolding requeue
increase_order b is_bid lvl slot new_qty =
    let old_qty = b.slots.qtys slot in
    let (s, p) = requeue (side_of is_bid b) b.slots lvl slot in
    put_side is_bid (record s { qtys = update s.qtys lvl (add32 (s.qtys lvl) (new_qty - old_qty)) })
      (record b { slots = record p { qtys = update p.qtys slot new_qty } })

unfoldable pub decrease_order : Book → Bool → ℕ → ℕ → Qty → Book
decrease_order b is_bid lvl slot new_qty =
    let old_qty = b.slots.qtys slot in
    let s = side_of is_bid b in
    put_side is_bid (record s { qtys = update s.qtys lvl (sub32 (s.qtys lvl) (old_qty - new_qty)) })
      (record b { slots = record (b.slots) { qtys = update b.slots.qtys slot new_qty } })

-- `modify_order` once the order's level is found.
unfoldable pub modify_at : Book → OrderId → Bool → ℕ → ℕ → Qty → Option (Book × Bool)
unfolding increase_order decrease_order
modify_at b id is_bid lvl slot new_qty =
    let old_qty = b.slots.qtys slot in
    let b' = decrease_order b is_bid lvl slot new_qty in
    let gone = drop_id (remove_order_from_level b' is_bid lvl slot) id true in
    if ltb old_qty new_qty
    then some (increase_order b is_bid lvl slot new_qty, true)
    else if ltb new_qty old_qty
    then (if new_qty == 0 then gone else some (b', true))
    else some (b, true)

unfoldable pub modify_order : Book → OrderId → Qty → Option (Book × Bool)
unfolding modify_at
modify_order b id new_qty = elim (Index.lookup b.index id) [
  | none ↦ none
  | some none ↦ some (b, false)
  | some (some (slot, side_idx)) ↦
      let is_bid = side_idx == 0 in
      elim (find_level (side_of is_bid b) (b.slots.prices slot)) [
        | none ↦ drop_id b id false
        | some lvl ↦ modify_at b id is_bid lvl slot new_qty
      ]
]
