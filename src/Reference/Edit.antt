-- ===== src/Reference/Edit.antt =====
-- tests/test_conservation.cpp: `cancel`, `modify`, `peek`, `best` and `resting_total` of `RefBook`.
pub mod Cancel
use options_engine.Prelude.{
  ℕ, zero, suc, ◌+◌, ◌-◌, Bool, true, false, Option, none, some, List, [], ◌∷◌, ◌++◌, ltb, ◌==◌,
  if◌then◌else◌,
}
use options_engine.Prelude.Words.{sub32, add32, add64}
use options_engine.Types.{Price, Qty, OrderId, BestQuote, price_invalid}
use options_engine.Reference.{RefOrder, RefLevel, RefBook, keep_level}

-- The search through one queue: the shares of the order, and the queue without it.
unfoldable pub erase_queue : OrderId → List RefOrder → Option (Qty × List RefOrder)
erase_queue id [] = none
erase_queue id (o ∷ q) =
    let rest : Option (Qty × List RefOrder) = elim (erase_queue id q) [
      | none ↦ none
      | some (n, q') ↦ some (n, o ∷ q')
    ] in
    if o.id == id then some (o.rem, q) else rest

-- A level whose queue is used up goes too.
unfoldable pub erase_from : OrderId → List RefLevel → Option (Qty × List RefLevel)
unfolding erase_queue
erase_from id [] = none
erase_from id (l ∷ ls) = elim (erase_queue id l.queue) [
  | some (n, q) ↦ some (n, keep_level l.px q ls)
  | none ↦ elim (erase_from id ls) [ none ↦ none | some (n, ls') ↦ some (n, l ∷ ls') ]
]

-- The book, and the shares that go to `out`; `none` is the result false. The count, which is at least 1
-- when an order rests, is lowered with a difference that stops at 0.
unfoldable pub cancel : RefBook → OrderId → RefBook × Option Qty
unfolding erase_from
cancel b id = elim (erase_from id b.bids) [
  | some (n, ls) ↦ (record b { bids = ls; resting_count = b.resting_count - 1 }, some n)
  | none ↦ elim (erase_from id b.asks) [
    | some (n, ls) ↦ (record b { asks = ls; resting_count = b.resting_count - 1 }, some n)
    | none ↦ (b, none)
  ]
]

-- The shares found, the queue changed, and whether the order is gone.
unfoldable pub modify_queue : OrderId → Qty → List RefOrder → Option (Qty × List RefOrder × Bool)
modify_queue id new_qty [] = none
modify_queue id new_qty (o ∷ q) =
    let rest : Option (Qty × List RefOrder × Bool) = elim (modify_queue id new_qty q) [
      | none ↦ none
      | some (n, q', gone) ↦ some (n, o ∷ q', gone)
    ] in
    if o.id == id
    then (if ltb o.rem new_qty
        then some (o.rem, q ++ record o { rem = new_qty } ∷ [], false)
        else if new_qty == 0
        then some (o.rem, q, true)
        else some (o.rem, record o { rem = new_qty } ∷ q, false))
    else rest

unfoldable pub modify_in : OrderId → Qty → List RefLevel → Option (Qty × List RefLevel × Bool)
unfolding modify_queue
modify_in id new_qty [] = none
modify_in id new_qty (l ∷ ls) = elim (modify_queue id new_qty l.queue) [
  | some (n, q, gone) ↦ some (n, keep_level l.px q ls, gone)
  | none ↦ elim (modify_in id new_qty ls) [
    | none ↦ none
    | some (n, ls', gone) ↦ some (n, l ∷ ls', gone)
  ]
]

-- The book and `delta`, the difference of the old and the new quantity.
unfoldable pub modify : RefBook → OrderId → Qty → RefBook × Option Qty
unfolding modify_in
modify b id new_qty =
    let count = λ (gone : Bool). if gone then b.resting_count - 1 else b.resting_count in
    elim (modify_in id new_qty b.bids) [
      | some (n, ls, gone) ↦
          (record b { bids = ls; resting_count = count gone }, some (sub32 n new_qty))
      | none ↦ elim (modify_in id new_qty b.asks) [
        | some (n, ls, gone) ↦
            (record b { asks = ls; resting_count = count gone }, some (sub32 n new_qty))
        | none ↦ (b, none)
      ]
    ]

abbrev queue_qty : List RefOrder → Qty → Qty
queue_qty [] n = n
queue_qty (o ∷ q) n = queue_qty q (add32 n o.rem)

abbrev best_of : List RefLevel → Price × Qty
best_of [] = (price_invalid, 0)
best_of (l ∷ ls) = (l.px, queue_qty l.queue 0)

unfoldable pub best : RefBook → BestQuote
best b = record {
  bid_price = (best_of b.bids).0;
  ask_price = (best_of b.asks).0;
  bid_qty = (best_of b.bids).1;
  ask_qty = (best_of b.asks).1;
  symbol = 0;
}
