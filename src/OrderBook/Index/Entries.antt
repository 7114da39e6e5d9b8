-- ===== src/OrderBook/Index/Entries.antt =====
-- What a table holds, wherever it holds it: the entry of an id, and how many entries there are.
use options_engine.Prelude.{
  ℕ, zero, suc, ◌+◌, ◌≤◌, ◌<◌, ◌≡◌, refl, ap, sym, ◌∙◌, ◌≢◌, ◌⊎◌, inl, inr, Option, none, some,
  arith, ◌==◌, if◌then◌else◌, ℕ_discrete,
}
use options_engine.Prelude.Arrays.{update, update_self, update_ne}
use options_engine.Types.{OrderId}
use options_engine.OrderBook.Index.{Entry, Table, table_size, empty_slot}
use options_engine.OrderBook.Index.Probe.{Occupied, Vacant}

-- The table holds `r` for the id: its slot and side, or nothing.
abbrev pub Reads : Table → OrderId → Option (ℕ × ℕ) → Type 0
Reads t id none = (i : ℕ) → i < table_size → Occupied (t i) → (t i).key ≢ id
Reads t id (some (slot, side)) =
    (i : ℕ) × (i < table_size)
    × Occupied (t i)
    × ((t i).key ≡ id)
    × ((t i).slot ≡ slot)
    × ((t i).side ≡ side)

-- 1 for an occupied entry.
abbrev pub unit : Entry → ℕ
unit e = if e.slot == empty_slot then 0 else 1

-- The occupied entries among the first `n`.
unfoldable pub count : Table → ℕ → ℕ
count t zero = 0
count t (suc n) = count t n + unit (t n)

pub unit-Occupied : (e : Entry) → Occupied e → unit e ≡ 1
unit-Occupied e o = ground arith

pub unit-Vacant : (e : Entry) → Vacant e → unit e ≡ 0
unit-Vacant e o = ground arith

count-update_of_le :
    (t : Table) (i : ℕ) (v : Entry) (n : ℕ) → n ≤ i → count (update t i v) n ≡ count t n
unfolding count
count-update_of_le t i v zero h = refl
count-update_of_le t i v (suc n) h =
    rw (count-update_of_le t i v n (omega arith), update_ne t i n v (omega arith)) refl

pub count-update :
    (t : Table) (i : ℕ) (v : Entry) (n : ℕ)
    → i < n
    → count (update t i v) n + unit (t i) ≡ count t n + unit v
unfolding count
count-update t i v zero h = absurd (omega arith)
count-update t i v (suc n) h = elim (ℕ_discrete i n) [
  | yes q ↦ rw (← q, count-update_of_le t i v i (omega arith), update_self t i v) (omega arith)
  | no q ↦ rw (update_ne t i n v q) (omega (arith, count-update t i v n (omega arith)))
]

-- A table that is not full has a vacant entry.
pub count-Vacant : (t : Table) (n : ℕ) → count t n < n → (i : ℕ) × (i < n) × Vacant (t i)
unfolding count
count-Vacant t zero h = absurd (omega arith)
count-Vacant t (suc n) h = elim (ℕ_discrete (t n).slot empty_slot) [
  | yes v ↦ (n, omega arith, v)
  | no o ↦
      let (i, k, v) = count-Vacant t n (omega (arith, unit-Occupied (t n) o)) in (i, omega arith, v)
]

-- An entry moved from `j` to a vacant place is held as before, and so are the others.
module _ (t : Table) (j k : ℕ) (v : Entry) (vacant : Vacant v) (from : Occupied (t j))
    (j_small : j < table_size) (k_small : k < table_size) (to : Vacant (update t j v k)) where
  moved : Table
  moved = update (update t j v) k (t j)

  -- Another occupied entry stays where it is.
  moved_ne : (i : ℕ) → i ≢ j → Occupied (t i) → moved i ≡ t i
  unfolding moved
  moved_ne i ne o =
      let same = update_ne t j i v (λ e. ne (sym e)) in
      update_ne (update t j v) k i (t j)
        (λ e. o (ap (λ x. x.slot) (sym same) ∙ ap (λ x. (update t j v x).slot) (sym e) ∙ to))
      ∙ same

  -- What is occupied after the move was there before.
  moved-cases : (i : ℕ) → Occupied (moved i) → (moved i ≡ t j) ⊎ (moved i ≡ t i) × Occupied (t i)
  unfolding moved
  moved-cases i o = elim (ℕ_discrete k i) [
    | yes e ↦ inl (ap moved (sym e) ∙ update_self (update t j v) k (t j))
    | no ne ↦ elim (ℕ_discrete j i) [
      | yes q ↦ absurd (
          o (
            ap (λ x. x.slot) (update_ne (update t j v) k i (t j) ne)
            ∙ ap (λ x. (update t j v x).slot) (sym q)
            ∙ ap (λ x. x.slot) (update_self t j v)
            ∙ vacant))
      | no q ↦
          let e = update_ne (update t j v) k i (t j) ne ∙ update_ne t j i v q in
          inr (e, λ z. o (ap (λ x. x.slot) e ∙ z))
    ]
  ]

  pub moved-Reads :
      (id : OrderId) (r : Option (ℕ × ℕ))
      → Reads t id r
      → Reads (update (update t j v) k (t j)) id r
  unfolding moved
  moved-Reads id none h = λ i small o e. elim (moved-cases i o) [
    | inl q ↦ h j j_small from (ap (λ x. x.key) (sym q) ∙ e)
    | inr (q, p) ↦ h i small p (ap (λ x. x.key) (sym q) ∙ e)
  ]
  moved-Reads id (some (slot, side)) (i, small, o, e, s, d) = elim (ℕ_discrete i j) [
    | yes q ↦
        let w = update_self (update t j v) k (t j) ∙ ap t (sym q) in
        (
          k,
          k_small,
          λ z. o (ap (λ x. x.slot) (sym w) ∙ z),
          ap (λ x. x.key) w ∙ e,
          ap (λ x. x.slot) w ∙ s,
          ap (λ x. x.side) w ∙ d,
        )
    | no q ↦
        let w = moved_ne i q o in
        (
          i,
          small,
          λ z. o (ap (λ x. x.slot) (sym w) ∙ z),
          ap (λ x. x.key) w ∙ e,
          ap (λ x. x.slot) w ∙ s,
          ap (λ x. x.side) w ∙ d,
        )
  ]

  pub moved-count : count (update (update t j v) k (t j)) table_size ≡ count t table_size
  moved-count = omega (
    arith,
    count-update t j v table_size j_small,
    count-update (update t j v) k (t j) table_size k_small,
    unit-Vacant v vacant,
    unit-Vacant (update t j v k) to,
  )
