-- ===== src/OrderBook/Index.antt =====
-- src/core/order_book.cpp, `OrderBook::OrderIndex`: order ids to slots, by linear probing.
pub mod Probe
pub mod Cluster
pub mod Entries
pub mod Rehash
pub mod Finite
mod Tests
use options_engine.Prelude.{
  ℕ, zero, suc, ◌+◌, ◌*◌, ◌/◌, ◌%◌, ◌^◌, Bool, true, false, ◌&&◌, not, Option, none, some, ◌==◌,
  if◌then◌else◌,
}
use options_engine.Prelude.Words.{u32_mod, u64_mod}
use options_engine.Prelude.Arrays.{Array, update}
use options_engine.Types.{OrderId, uint32_max}

abbrev pub table_size : ℕ
table_size = 131072

abbrev pub empty_slot : ℕ
empty_slot = uint32_max

pub record Entry : Type 0 where
  pub key : OrderId
  pub slot : ℕ
  pub side : ℕ

abbrev pub Table : Type 0
Table = Array Entry

-- Every entry of the fresh table.
unfoldable pub init : Table
init i = record { key = 0; slot = empty_slot; side = 0xff }

-- `static_cast<uint32_t>(id * 2654435761ULL >> 32) % kTableSize`
unfoldable pub home : OrderId → ℕ
home id = id * 2654435761 % u64_mod / 2 ^ 32 % u32_mod % table_size

-- `table[h].slot != kEmpty && table[h].key != id`
unfoldable pub taken_by_other : Entry → OrderId → Bool
taken_by_other e id = not (e.slot == empty_slot) && not (e.key == id)

-- The loop of `probe`, with `n` rounds left.
unfoldable pub probe_from : ℕ → Table → OrderId → ℕ → Option ℕ
unfolding taken_by_other
probe_from zero t id h = none
probe_from (suc n) t id h =
    let rest = probe_from n t id ((h + 1) % table_size) in
    if taken_by_other (t h) id then rest else some h

-- `none` when every entry is taken by another id: the program's loop does not end then.
unfoldable pub probe : Table → OrderId → Option ℕ
unfolding probe_from home
probe t id = probe_from table_size t id (home id)

-- The table, and whether the entry was written.
unfoldable pub insert : Table → OrderId → ℕ → ℕ → Option (Table × Bool)
unfolding probe taken_by_other
insert t id slot side = elim (probe t id) [
  | none ↦ none
  | some h ↦
      if taken_by_other (t h) id
      then some (t, false)
      else some (update t h (record { key = id; slot = slot; side = side }), true)
]

-- The slot and the side, `some none` when the id is absent.
unfoldable pub lookup : Table → OrderId → Option (Option (ℕ × ℕ))
unfolding probe
lookup t id = elim (probe t id) [
  | none ↦ none
  | some h ↦ if (t h).slot == empty_slot then some none else some (some ((t h).slot, (t h).side))
]

-- The second loop of `remove`: lift the entry at `j` out, and put it where `probe` finds room.
unfoldable pub rehash : ℕ → Table → ℕ → Option Table
unfolding probe
rehash zero t j = none
rehash (suc n) t j =
    let e = t j in
    let t' = update t j (record e { slot = empty_slot }) in
    let rest = λ (k : ℕ). rehash n (update t' k e) ((j + 1) % table_size) in
    if e.slot == empty_slot then some t else elim (probe t' e.key) [ none ↦ none | some k ↦ rest k ]

unfoldable pub remove : Table → OrderId → Option (Table × Bool)
unfolding probe rehash
remove t id = elim (probe t id) [
  | none ↦ none
  | some h ↦
      if (t h).slot == empty_slot
      then some (t, false)
      else let cleared = update t h (record { key = 0; slot = empty_slot; side = (t h).side }) in
        elim (rehash table_size cleared ((h + 1) % table_size)) [
          | none ↦ none
          | some t' ↦ some (t', true)
        ]
]
