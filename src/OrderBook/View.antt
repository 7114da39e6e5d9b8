-- ===== src/OrderBook/View.antt =====
-- One side of the detailed book seen as the reference book's price levels with queues: the slots of
-- each level are the ones its linked list leads through.
use mathlib.Core.Path.{subst}
use options_engine.Prelude.{
  ℕ, zero, suc, ◌+◌, ◌≤◌, ◌<◌, ◌≡◌, ◌≢◌, refl, ap, sym, ◌∙◌, List, [], ◌∷◌, Option, length, arith,
}
use options_engine.Prelude.Arrays.{Array}
use options_engine.Types.{OrderId}
use options_engine.OrderBook.Levels.{Levels, max_levels}
use options_engine.OrderBook.Slots.{Slots, max_orders}
use options_engine.OrderBook.Slots.FreeList.{Chain, Absent, Distinct}
use options_engine.OrderBook.Index.{Table, table_size}
use options_engine.OrderBook.Index.Finite.{Models}
use options_engine.OrderBook.Levels.Shift.{Row, row}
use options_engine.Reference.{RefOrder, RefLevel}

abbrev pub order_at : Slots → ℕ → RefOrder
order_at p x = record { id = p.ids x; rem = p.qtys x; account = p.accounts x }

-- The orders in the slots `q`.
abbrev pub orders : Slots → List ℕ → List RefOrder
orders p [] = []
orders p (x ∷ q) = order_at p x ∷ orders p q

-- The price levels from the level `i` on, whose queues are `qs`.
abbrev pub levels : Levels → Slots → ℕ → List (List ℕ) → List RefLevel
levels s p i [] = []
levels s p i (q ∷ qs) = record { px = s.prices i; queue = orders p q } ∷ levels s p (i + 1) qs

-- A level's list leads through `q`, it has that many orders, and no slot twice.
pub record IsQueue (nexts : Array ℕ) (r : Row) (q : List ℕ) : Type 0 where
  pub chain : Chain nexts r.head_idx q
  pub counted : r.order_count ≡ length q
  pub distinct : Distinct q

-- Every slot of the first is absent from the second.
abbrev pub Apart : List ℕ → List ℕ → Type 0
Apart [] r = Unit {0}
Apart (x ∷ q) r = Absent x r × Apart q r

abbrev pub AllApart : List (List ℕ) → List ℕ → Type 0
AllApart [] r = Unit {0}
AllApart (q ∷ qs) r = Apart q r × AllApart qs r

-- The levels from `i` on have the queues `qs`, none empty, none longer than the pool, and no slot is
-- in two of them.
abbrev pub Queues : Levels → Array ℕ → ℕ → List (List ℕ) → Type 0
Queues s nexts i [] = Unit {0}
Queues s nexts i (q ∷ qs) =
    IsQueue nexts (row s i) q
    × (q ≢ [])
    × (length q ≤ max_orders)
    × AllApart qs q
    × Queues s nexts (i + 1) qs

-- The index holds some finite map and has a vacant entry.
abbrev pub IsIndex : Table → Type 0
IsIndex t = (n : ℕ) × (f : OrderId → Option (ℕ × ℕ)) × (n < table_size) × Models t n f

-- The side's levels have the queues `qs`.
pub record IsSide (s : Levels) (p : Slots) (qs : List (List ℕ)) : Type 0 where
  pub count : s.count ≡ length qs
  pub small : length qs ≤ max_levels
  pub queues : Queues s p.nexts 0 qs

-- A write to a slot that is not in the queue changes no order of it.
pub orders-outside :
    (p p' : Slots) (q r : List ℕ)
    → ((x : ℕ) → Absent x r → order_at p' x ≡ order_at p x)
    → Apart q r
    → orders p' q ≡ orders p q
orders-outside p p' [] r same a = refl
orders-outside p p' (x ∷ q) r same a =
    ap (λ o. o ∷ orders p' q) (same x a.0)
    ∙ ap (λ os. order_at p x ∷ os) (orders-outside p p' q r same a.1)

pub Apart-sub : (q r r' : List ℕ) → ((x : ℕ) → Absent x r → Absent x r') → Apart q r → Apart q r'
Apart-sub [] r r' sub a = tt
Apart-sub (x ∷ q) r r' sub a = (sub x a.0, Apart-sub q r r' sub a.1)

pub AllApart-sub :
    (qs : List (List ℕ)) (r r' : List ℕ)
    → ((x : ℕ) → Absent x r → Absent x r')
    → AllApart qs r
    → AllApart qs r'
AllApart-sub [] r r' sub a = tt
AllApart-sub (q ∷ qs) r r' sub a = (Apart-sub q r r' sub a.0, AllApart-sub qs r r' sub a.1)

-- The levels `j, …` of `s'` are the levels `i, …` of `s`, `n` of them.
abbrev pub SameRows : Levels → Levels → ℕ → ℕ → ℕ → Type 0
SameRows s s' i j zero = Unit {0}
SameRows s s' i j (suc n) = (row s' j ≡ row s i) × SameRows s s' (i + 1) (j + 1) n

pub rows-SameRows :
    (s s' : Levels) (i j n : ℕ)
    → ((a b : ℕ) → i ≤ a → a < i + n → a + j ≡ b + i → row s' b ≡ row s a)
    → SameRows s s' i j n
rows-SameRows s s' i j zero h = tt
rows-SameRows s s' i j (suc n) h = (
  h i j (omega arith) (omega arith) (omega arith),
  rows-SameRows s s' (i + 1) (j + 1) n
      (λ a b lo hi e. h a b (omega arith) (omega arith) (omega arith)),
)

-- Levels that are the same, in slots whose orders are the same, show the same.
pub levels-same :
    (s s' : Levels) (p p' : Slots) (i j : ℕ) (qs : List (List ℕ)) (r : List ℕ)
    → SameRows s s' i j (length qs)
    → ((x : ℕ) → Absent x r → order_at p' x ≡ order_at p x)
    → AllApart qs r
    → levels s' p' j qs ≡ levels s p i qs
levels-same s s' p p' i j [] r rows same a = refl
levels-same s s' p p' i j (q ∷ qs) r rows same a =
    let rest = levels-same s s' p p' (i + 1) (j + 1) qs r rows.1 same a.1 in
    let price : s'.prices j ≡ s.prices i = ap (λ x. x.price) rows.0 in
    let queue = orders-outside p p' q r same a.0 in rw (price, queue, rest)

pub Queues-same :
    (s s' : Levels) (nexts : Array ℕ) (i j : ℕ) (qs : List (List ℕ))
    → SameRows s s' i j (length qs)
    → Queues s nexts i qs
    → Queues s' nexts j qs
Queues-same s s' nexts i j [] rows v = tt
Queues-same s s' nexts i j (q ∷ qs) rows (here, ne, short, apart, v) = (
  subst (λ x. IsQueue nexts x q) (sym rows.0) here,
  ne,
  short,
  apart,
  Queues-same s s' nexts (i + 1) (j + 1) qs rows.1 v,
)
