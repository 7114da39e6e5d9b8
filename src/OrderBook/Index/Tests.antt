-- ===== src/OrderBook/Index/Tests.antt =====
-- The index's theorems on a table with one entry.
use mathlib.Core.Path.{subst}
use options_engine.Prelude.{
  ℕ, ◌+◌, ◌≡◌, refl, ap, sym, ◌∙◌, true, Option, none, some, arith, some-eq,
}
use options_engine.Prelude.Arrays.{update}
use options_engine.Types.{OrderId}
use options_engine.OrderBook.Index.{
  Table, init, home, probe, probe_from, taken_by_other, insert, remove, lookup,
}
use options_engine.OrderBook.Index.Finite.{Models, put, init-Models, lookup-Models}
use options_engine.OrderBook.Index.Finite.Insert.{insert-Models}
use options_engine.OrderBook.Index.Finite.Remove.{remove-Models}

abbrev one_entry : Table
one_entry = update init (home 7) (record { key = 7; slot = 2; side = 1 })

-- Order 7 is in slot 2, on side 1.
abbrev only_seven : OrderId → Option (ℕ × ℕ)
only_seven = put (λ _. none) 7 (some (2, 1))

insert_seven : insert init 7 2 1 ≡ some (one_entry, true)
unfolding insert probe probe_from taken_by_other init home
insert_seven = refl

one_entry-Models : Models one_entry 1 only_seven
one_entry-Models =
    let (t, n, e, c, v) =
      insert-Models init 0 (λ _. none) 7 2 1 init-Models (omega arith) (omega arith) in
    let same : t ≡ one_entry = ap (λ x. x.0) (some-eq (sym e ∙ insert_seven)) in
    let one : n ≡ 1 = omega (arith, c) in
    subst (λ x. Models x 1 only_seven) same (subst (λ x. Models t x only_seven) one v)

lookup-Models_example : lookup one_entry 7 ≡ some (some (2, 1))
lookup-Models_example = lookup-Models one_entry 1 only_seven 7 one_entry-Models (omega arith)

insert-Models_example :
    (t' : Table) × (n' : ℕ) × (insert one_entry 9 4 0 ≡ some (t', true))
    × (n' + 0 ≡ 2)
    × Models t' n' (put only_seven 9 (some (4, 0)))
insert-Models_example =
    insert-Models one_entry 1 only_seven 9 4 0 one_entry-Models (omega arith) (omega arith)

remove-Models_example :
    (t' : Table) × (n' : ℕ) × (remove one_entry 7 ≡ some (t', true))
    × (n' + 1 ≡ 1)
    × Models t' n' (put only_seven 7 none)
remove-Models_example = remove-Models one_entry 1 only_seven 7 one_entry-Models (omega arith)
