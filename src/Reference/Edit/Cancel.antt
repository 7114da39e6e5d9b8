-- ===== src/Reference/Edit/Cancel.antt =====
-- `RefBook::cancel`: the shares and the orders of the whole book.
use options_engine.Prelude.{
  ◌+◌, ◌-◌, ◌≡◌, refl, Option, none, some, List, [], ◌∷◌, arith, length, ◌==◌, Bool-cases, inl, inr,
}
use options_engine.Types.{Price, Qty, OrderId}
use options_engine.Reference.{RefOrder, RefLevel, RefBook, keep_level}
use options_engine.Reference.Sweep.{queue_total, side_total, side_orders}
use options_engine.Reference.Accounts.{book_total, book_orders}
use options_engine.Reference.Edit.{erase_queue, erase_from, cancel}

abbrev QueueErased : List RefOrder → Option (Qty × List RefOrder) → Type 0
QueueErased q none = Unit {0}
QueueErased q (some (n, q')) = (queue_total q' + n ≡ queue_total q) × (length q' + 1 ≡ length q)

abbrev SideErased : List RefLevel → Option (Qty × List RefLevel) → Type 0
SideErased ls none = Unit {0}
SideErased ls (some (n, ls')) =
    (side_total ls' + n ≡ side_total ls) × (side_orders ls' + 1 ≡ side_orders ls)

erase_queue-QueueErased : (id : OrderId) (q : List RefOrder) → QueueErased q (erase_queue id q)
unfolding erase_queue
erase_queue-QueueErased id [] = tt
erase_queue-QueueErased id (o ∷ q) = elim (Bool-cases (o.id == id)) [
  | inl t ↦ rw t (omega arith, omega arith)
  | inr t ↦ rw t (behind (erase_queue id q) (erase_queue-QueueErased id q))
]
  where
    behind :
        (r : Option (Qty × List RefOrder))
        → QueueErased q r
        → QueueErased (o ∷ q) (elim r [ none ↦ none | some (n, q') ↦ some (n, o ∷ q') ])
    behind none h = tt
    behind (some (n, q')) h = (omega (arith, h.0), omega (arith, h.1))

keep_level-totals :
    (px : Price) (q : List RefOrder) (ls : List RefLevel)
    → (side_total (keep_level px q ls) ≡ queue_total q + side_total ls)
      × (side_orders (keep_level px q ls) ≡ length q + side_orders ls)
keep_level-totals px [] ls = (omega arith, omega arith)
keep_level-totals px (o ∷ q) ls = (refl, refl)

erase_from-SideErased : (id : OrderId) (ls : List RefLevel) → SideErased ls (erase_from id ls)
unfolding erase_from
erase_from-SideErased id [] = tt
erase_from-SideErased id (l ∷ ls) =
    here (erase_queue id l.queue) (erase_queue-QueueErased id l.queue) (erase_from-SideErased id ls)
  where
    behind :
        (r : Option (Qty × List RefLevel))
        → SideErased ls r
        → SideErased (l ∷ ls) (elim r [ none ↦ none | some (n, ls') ↦ some (n, l ∷ ls') ])
    behind none h = tt
    behind (some (n, ls')) h = (omega (arith, h.0), omega (arith, h.1))

    here :
        (r : Option (Qty × List RefOrder))
        → QueueErased l.queue r
        → SideErased ls (erase_from id ls)
        → SideErased (l ∷ ls) (elim r [
          | some (n, q) ↦ some (n, keep_level l.px q ls)
          | none ↦ elim (erase_from id ls) [ none ↦ none | some (n, ls') ↦ some (n, l ∷ ls') ]
        ])
    here none h k = behind (erase_from id ls) k
    here (some (n, q)) h k =
        let (total, orders) = keep_level-totals l.px q ls in
        (omega (arith, h.0, total), omega (arith, h.1, orders))

-- What a cancel leaves: the book untouched where the id rests nowhere, or the book without one order and
-- its shares, with the right count of resting orders.
abbrev pub IsCancelled : RefBook → RefBook × Option Qty → Type 0
IsCancelled b (b', none) = b' ≡ b
IsCancelled b (b', some n) =
    (book_total b' + n ≡ book_total b)
    × (book_orders b' + 1 ≡ book_orders b)
    × (b'.resting_count ≡ book_orders b')

-- On a reference book whose count of resting orders is right, `cancel` changes nothing when it returns
-- false; else the shares that it gives out are those that no longer rest, one order fewer rests, and the
-- count of resting orders stays right.
pub cancel-IsCancelled :
    (b : RefBook) (id : OrderId) → b.resting_count ≡ book_orders b → IsCancelled b (cancel b id)
unfolding cancel
cancel-IsCancelled b id e = in_bids (erase_from id b.bids) (erase_from-SideErased id b.bids)
  where
    in_asks :
        (r : Option (Qty × List RefLevel))
        → SideErased b.asks r
        → IsCancelled b (elim r [
          | some (n, ls) ↦ (record b { asks = ls; resting_count = b.resting_count - 1 }, some n)
          | none ↦ (b, none)
        ])
    in_asks none h = refl
    in_asks (some (n, ls)) h = (omega (arith, h.0), omega (arith, h.1), omega (arith, h.1, e))

    in_bids :
        (r : Option (Qty × List RefLevel))
        → SideErased b.bids r
        → IsCancelled b (elim r [
          | some (n, ls) ↦ (record b { bids = ls; resting_count = b.resting_count - 1 }, some n)
          | none ↦ elim (erase_from id b.asks) [
            | some (n, ls) ↦ (record b { asks = ls; resting_count = b.resting_count - 1 }, some n)
            | none ↦ (b, none)
          ]
        ])
    in_bids none h = in_asks (erase_from id b.asks) (erase_from-SideErased id b.asks)
    in_bids (some (n, ls)) h = (omega (arith, h.0), omega (arith, h.1), omega (arith, h.1, e))
