-- ===== src/OrderBook/Index/Finite.antt =====
-- `OrderIndex` as a finite map from order ids to slots and sides.
pub mod Insert
pub mod Remove
use mathlib.Core.Path.{subst}
use options_engine.Prelude.{
  ℕ, zero, suc, ◌+◌, ◌≤◌, ◌<◌, ◌≡◌, refl, ap, sym, ◌∙◌, ◌≢◌, ◌⊎◌, inl, inr, Bool, true, false,
  Option, none, some, arith, ◌==◌, if◌then◌else◌, ℕ_discrete,
}
use options_engine.Types.{OrderId}
use options_engine.OrderBook.Index.{Entry, Table, table_size, empty_slot, init, home, probe, lookup}
use options_engine.OrderBook.Index.Probe.{
  Occupied, Vacant, Ends, place, place-lt, home-lt, Lands, Vacant-Lands, probe-Lands,
}
use options_engine.OrderBook.Index.Cluster.{Placed, KeysDistinct}
use options_engine.OrderBook.Index.Entries.{Reads, count, unit-Vacant, count-Vacant}

-- Every entry is in place, no id has two, and there are `n`.
pub record IsTable (t : Table) (n : ℕ) : Type 0 where
  pub placed : (i : ℕ) → i < table_size → Occupied (t i) → Placed t i
  pub distinct : KeysDistinct t
  pub counted : count t table_size ≡ n

-- The table holds the finite map `f`, which has `n` ids.
pub record Models (t : Table) (n : ℕ) (f : OrderId → Option (ℕ × ℕ)) : Type 0 where
  pub valid : IsTable t n
  pub reads : (id : OrderId) → Reads t id (f id)

-- The map with another value for `id`.
abbrev pub put : (OrderId → Option (ℕ × ℕ)) → OrderId → Option (ℕ × ℕ) → OrderId → Option (ℕ × ℕ)
put f id v k = if k == id then v else f k

-- 1 for an id that the map has.
abbrev pub held : Option (ℕ × ℕ) → ℕ
held none = 0
held (some _) = 1

count-init : (n : ℕ) → count init n ≡ 0
unfolding count init
count-init zero = refl
count-init (suc n) = omega (arith, count-init n)

init-Vacant : (i : ℕ) → Vacant (init i)
unfolding init
init-Vacant i = refl

-- The fresh index holds the empty map.
pub init-Models : Models init 0 (λ _. none)
init-Models = record {
  valid = record {
    placed = λ i small o. absurd (o (init-Vacant i));
    distinct = λ i j si sj oi oj e. absurd (oi (init-Vacant i));
    counted = count-init table_size;
  };
  reads = λ id i small o e. o (init-Vacant i);
}

-- The slot and the side of an occupied entry.
abbrev shown : Entry → Option (ℕ × ℕ)
shown e = if e.slot == empty_slot then none else some (e.slot, e.side)

-- What `lookup` gives once the walk is known to end at `k`.
lookup-at :
    (t : Table) (id : OrderId) (k : ℕ) → probe t id ≡ some k → lookup t id ≡ some (shown (t k))
unfolding lookup
lookup-at t id k e = rw (e, lookup) (at ((t k).slot == empty_slot) ((t k).slot, (t k).side))
  where
    at :
        (b : Bool) (x : ℕ × ℕ)
        → ◌≡◌ {A = Option (Option (ℕ × ℕ))}
            (if b then some none else some (some x))
            (some (if b then none else some x))
    at true x = refl
    at false x = refl

shown-Vacant : (e : Entry) → Vacant e → shown e ≡ none
shown-Vacant e v = let t : (e.slot == empty_slot) ≡ true = ground arith in rw t refl

shown-Occupied :
    (e : Entry) (slot side : ℕ)
    → Occupied e
    → e.slot ≡ slot
    → e.side ≡ side
    → shown e ≡ some (slot, side)
shown-Occupied e slot side o p q =
    let t : (e.slot == empty_slot) ≡ false = ground arith in rw t (λ i. some (p i, q i))

module _ {t : Table} {n : ℕ} (v : IsTable t n) (room : n < table_size) where
  -- The walk for any id ends.
  pub probe_ends : (id : OrderId) → (d : ℕ) × Lands t id d
  probe_ends id =
      let (i, small, vacant) = count-Vacant t table_size (omega (arith, v.counted)) in
      Vacant-Lands t id i small vacant

  -- The walk for an id that the table has ends at its entry.
  pub probe_held :
      (id : OrderId) (i : ℕ)
      → i < table_size
      → Occupied (t i)
      → (t i).key ≡ id
      → probe t id ≡ some i
  probe_held id i small o e =
      let (d, w, there) = v.placed i small o in
      subst (λ k. probe t k ≡ some i) e (probe-Lands t (t i).key d w ∙ ap some there)

  -- The walk for another id ends at a vacant entry.
  pub probe_absent :
      (id : OrderId) → Reads t id none → (d : ℕ) × Lands t id d × Vacant (t (place (home id) d))
  probe_absent id absent =
      let (d, w) = probe_ends id in
      (
        d,
        w,
        elim (ℕ_discrete (t (place (home id) d)).slot empty_slot) [
          | yes z ↦ z
          | no o ↦ elim w.ends [
            | inl z ↦ z
            | inr e ↦ absurd (absent (place (home id) d) (place-lt (home id) d) o e)
          ]
        ],
      )

  pub lookup-Reads : (id : OrderId) (r : Option (ℕ × ℕ)) → Reads t id r → lookup t id ≡ some r
  lookup-Reads id none absent =
      let (d, w, vacant) = probe_absent id absent in
      lookup-at t id (place (home id) d) (probe-Lands t id d w)
      ∙ ap some (shown-Vacant (t (place (home id) d)) vacant)
  lookup-Reads id (some (slot, side)) (i, small, o, e, p, q) =
      lookup-at t id i (probe_held id i small o e) ∙ ap some (shown-Occupied (t i) slot side o p q)

-- On a table that holds a finite map and has a vacant entry, `lookup` ends for every id, with what the map
-- has for it.
pub lookup-Models :
    (t : Table) (n : ℕ) (f : OrderId → Option (ℕ × ℕ)) (id : OrderId)
    → Models t n f
    → n < table_size
    → lookup t id ≡ some (f id)
lookup-Models t n f id v room = lookup-Reads v.valid room id (f id) (v.reads id)
