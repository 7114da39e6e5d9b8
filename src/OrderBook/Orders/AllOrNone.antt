-- ===== src/OrderBook/Orders/AllOrNone.antt =====
-- Fill-or-kill orders on the detailed book.
use mathlib.Core.Path.{subst}
use options_engine.Prelude.{
  ℕ, ◌-◌, ◌≤◌, ◌<◌, ◌≡◌, refl, ap, sym, ◌∙◌, inl, inr, Bool, true, false, Option, none, some, List,
  [], map, arith, ltb, Bool-cases, if◌then◌else◌,
}
use options_engine.Prelude.Words.{add64}
use options_engine.Types.{
  Order, OrderType, limit, market, ioc, fok, unnamed, is_fok, is_market, is_immediate, uint32_max,
}
use options_engine.OrderBook.State.{Book, side_of}
use options_engine.OrderBook.View.{levels, IsSide, IsIndex}
use options_engine.OrderBook.Match.{Matching, try_match}
use options_engine.OrderBook.Match.Reports.{total_exec}
use options_engine.OrderBook.Match.Fills.{try_match-IsProgress}
use options_engine.OrderBook.Match.Level.{fill_of}
use options_engine.OrderBook.Match.Refines.{opposite, try_match-sweep}
use options_engine.OrderBook.Liquidity.{available_liquidity}
use options_engine.OrderBook.Liquidity.Refines.{available_liquidity-available}
use options_engine.OrderBook.Orders.{Outcome, reject, add_immediate, add_order}
use options_engine.Reference.{RefLevel, taker, available, sweep}
use options_engine.Reference.AllOrNone.{available-covers}

abbrev counted : Book → Book
counted b = record b { stat_orders = add64 b.stat_orders 1 }

abbrev passive_levels : Book → Order → List (List ℕ) → List RefLevel
passive_levels b o qs = levels (side_of (opposite o) b) b.slots 0 qs

-- Refused because too little is available, with nothing but the two counters changed, or filled: the
-- reports are the fills of the reference sweep and add up to the order's quantity.
pub data AllOrNone (b : Book) (o : Order) (ls : List RefLevel) (out : Outcome) : Type 0 where
  refused :
      ltb (available (taker o) 0 ls) o.qty_remaining ≡ true
      → out ≡ reject (counted b) []
      → AllOrNone b o ls out
  filled :
      out.result ≡ true
      → map fill_of out.reports ≡ (sweep (taker o) o.qty_remaining ls).fills
      → total_exec out.reports ≡ o.qty_remaining
      → AllOrNone b o ls out

fok_kinds : (t : OrderType) → is_fok t ≡ true → (is_immediate t ≡ true) × (is_market t ≡ false)
fok_kinds fok e = (refl, refl)
fok_kinds limit e = cc
fok_kinds market e = cc
fok_kinds ioc e = cc
fok_kinds (unnamed n) e = cc

-- The handler's branches as equations between shut calls.
abbrev ran : Option (Matching × Bool) → Option Outcome
ran none = none
ran (some (m, _)) = some (record { book = m.book; result = true; reports = m.reports })

abbrev checked : Book → Order → Option ℕ → Option Outcome → Option Outcome
checked b o found run = elim found [
  | none ↦ none
  | some liquid ↦ if ltb liquid o.qty_remaining then some (reject b []) else run
]

add_immediate_fok :
    (b : Book) (o : Order)
    → is_fok o.type ≡ true
    → add_immediate b o ≡ checked b o (available_liquidity b o) (ran (try_match b o))
unfolding add_immediate
add_immediate_fok b o e = rw (e, add_immediate)

add_order_immediate :
    (b : Book) (o : Order)
    → is_immediate o.type ≡ true
    → add_order b o ≡ add_immediate (counted b) o
unfolding add_order
add_order_immediate b o e = rw (e, add_order)

side-counted : (d : Bool) (b : Book) → side_of d (counted b) ≡ side_of d b
side-counted true b = refl
side-counted false b = refl

none_left : (l n a : ℕ) → l ≤ n - a → ltb a n ≡ false → l ≡ 0
none_left l n a h e = ground arith

module _ (b : Book) (o : Order) (qs : List (List ℕ)) where
  immediate :
      is_fok o.type ≡ true
      → 0 < o.qty_remaining
      → o.qty_remaining ≤ uint32_max
      → ((x : ℕ) → b.slots.qtys x ≤ uint32_max)
      → b.match_cb ≡ true
      → IsSide (side_of (opposite o) (counted b)) b.slots qs
      → IsIndex b.index
      → (out : Outcome) × (add_order b o ≡ some out)
        × AllOrNone b o (passive_levels (counted b) o qs) out
  immediate kill pos small narrow cb v t =
      let ls = passive_levels (counted b) o qs in
      let (imm, limited) = fok_kinds o.type kill in
      let (liquid, found, same) =
        available_liquidity-available (counted b) o qs limited pos small narrow v in
      let (m, qs', ends, k) = try_match-sweep (counted b) o qs cb v t in
      let run = add_order_immediate b o imm ∙ add_immediate_fok (counted b) o kill in
      elim (Bool-cases (ltb liquid o.qty_remaining)) [
        | inl short ↦
            (reject (counted b) [], run ∙ rw (found, short), refused (sym same ∙ short) refl)
        | inr enough ↦
            let gone : m.incoming.qty_remaining ≡ 0 =
              ap (λ x. x.qty_remaining) k.incoming
              ∙ none_left (sweep (taker o) o.qty_remaining ls).left o.qty_remaining
                  (available (taker o) 0 ls)
                  (available-covers (taker o) o.qty_remaining o.qty_remaining 0 ls small
                    (omega arith))
                  (sym same ∙ enough) in
            (
              record { book = m.book; result = true; reports = m.reports },
              run ∙ rw (found, enough, ends),
              filled refl k.fills
                  (omega (arith, (try_match-IsProgress (counted b) o ends).sum cb, gone)),
            )
      ]

  -- On a book with a callback whose passive side is well formed, with an index that holds a finite map,
  -- `add_order` of a fill-or-kill order, of a 32-bit quantity above 0, ends. The order is refused, with
  -- nothing reported and nothing but two counters changed, when the reference book has less available;
  -- otherwise its fills are those of the reference sweep and add up to its whole quantity.
  pub add_order-AllOrNone :
      is_fok o.type ≡ true
      → 0 < o.qty_remaining
      → o.qty_remaining ≤ uint32_max
      → ((x : ℕ) → b.slots.qtys x ≤ uint32_max)
      → b.match_cb ≡ true
      → IsSide (side_of (opposite o) b) b.slots qs
      → IsIndex b.index
      → (out : Outcome) × (add_order b o ≡ some out) × AllOrNone b o (passive_levels b o qs) out
  add_order-AllOrNone kill pos small narrow cb v t =
      let same = side-counted (opposite o) b in
      let (out, ends, k) =
        immediate kill pos small narrow cb (subst (λ s. IsSide s b.slots qs) (sym same) v) t in
      (out, ends, subst (λ s. AllOrNone b o (levels s b.slots 0 qs) out) same k)
