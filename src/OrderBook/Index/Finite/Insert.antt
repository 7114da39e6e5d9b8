-- ===== src/OrderBook/Index/Finite/Insert.antt =====
-- `OrderIndex::insert` on the finite map.
use mathlib.Core.Path.{subst}
use options_engine.Prelude.{
  ℕ, ◌+◌, ◌<◌, ◌≡◌, refl, ap, sym, ◌∙◌, ◌≢◌, inl, inr, Bool, true, false, Option, none, some, arith,
  ◌==◌, if◌then◌else◌, ℕ_discrete, Bool-cases,
}
use options_engine.Prelude.Arrays.{update, update_self, update_ne}
use options_engine.Types.{OrderId}
use options_engine.OrderBook.Index.{
  Entry, Table, table_size, empty_slot, home, probe, insert, taken_by_other,
}
use options_engine.OrderBook.Index.Probe.{
  Occupied, Vacant, Other, Ends, Ends-taken, place, place-lt, place-zero, Lands, probe-Lands,
}
use options_engine.OrderBook.Index.Cluster.{Pending, filled-Pending}
use options_engine.OrderBook.Index.Entries.{
  Reads, count, count-update, unit-Vacant, unit-Occupied, count-Vacant,
}
use options_engine.OrderBook.Index.Finite.{IsTable, Models, put, held, probe_held, probe_absent}

abbrev entry : OrderId → ℕ → ℕ → Entry
entry id slot side = record { key = id; slot = slot; side = side }

insert-at :
    (t : Table) (id : OrderId) (slot side k : ℕ)
    → probe t id ≡ some k
    → Ends (t k) id
    → insert t id slot side ≡ some (update t k (entry id slot side), true)
unfolding insert
insert-at t id slot side k e ends =
    rw (e, insert) (at (taken_by_other (t k) id) (Ends-taken (t k) id ends))
  where
    at :
        (b : Bool)
        → b ≡ false
        → ◌≡◌ {A = Option (Table × Bool)}
            (if b then some (t, false) else some (update t k (entry id slot side), true))
            (some (update t k (entry id slot side), true))
    at true q = cc
    at false q = refl

-- What a table holds after a write of `id` to a place that was vacant or held `id`.
written-Reads :
    (t : Table) (f : OrderId → Option (ℕ × ℕ)) (id : OrderId) (slot side k : ℕ)
    → k < table_size
    → slot ≢ empty_slot
    → Ends (t k) id
    → ((q : OrderId) → Reads t q (f q))
    → (q : OrderId) → Reads (update t k (entry id slot side)) q (put f id (some (slot, side)) q)
written-Reads t f id slot side k small real ends reads q = elim (Bool-cases (q == id)) [
  | inl b ↦ rw b (
    k,
    small,
    λ z. real (ap (λ x. x.slot) (sym at_k) ∙ z),
    ap (λ x. x.key) at_k ∙ sym (same b),
    ap (λ x. x.slot) at_k,
    ap (λ x. x.side) at_k,
  )
  | inr b ↦ rw b (keep (f q) (other b) (reads q))
]
  where
    at_k : update t k (entry id slot side) k ≡ entry id slot side
    at_k = update_self t k (entry id slot side)

    same : (q == id) ≡ true → q ≡ id
    same b = ground arith

    other : (q == id) ≡ false → q ≢ id
    other b = ground arith

    keep : (r : Option (ℕ × ℕ)) → q ≢ id → Reads t q r → Reads (update t k (entry id slot side)) q r
    keep none ne h = λ i si o e. elim (ℕ_discrete k i) [
      | yes z ↦
          ne (
            sym e
            ∙ ap (λ x. (update t k (entry id slot side) x).key) (sym z)
            ∙ ap (λ x. x.key) at_k)
      | no z ↦
          let w = update_ne t k i (entry id slot side) z in
          h i si (λ y. o (ap (λ x. x.slot) w ∙ y)) (ap (λ x. x.key) (sym w) ∙ e)
    ]
    keep (some (s, d)) ne (i, si, o, e, p, y) =
        let z : k ≢ i = λ z. elim ends [
          | inl v ↦ o (ap (λ x. (t x).slot) (sym z) ∙ v)
          | inr g ↦ ne (sym e ∙ ap (λ x. (t x).key) (sym z) ∙ g)
        ] in
        let w = update_ne t k i (entry id slot side) z in
        (
          i,
          si,
          λ u. o (ap (λ x. x.slot) (sym w) ∙ u),
          ap (λ x. x.key) w ∙ e,
          ap (λ x. x.slot) w ∙ p,
          ap (λ x. x.side) w ∙ y,
        )

-- A new id, put at the vacant end of its walk.
new-IsTable :
    (t : Table) (n : ℕ) (id : OrderId) (slot side d : ℕ)
    → IsTable t n
    → n + 1 < table_size
    → slot ≢ empty_slot
    → Reads t id none
    → Lands t id d
    → Vacant (t (place (home id) d))
    → IsTable (update t (place (home id) d) (entry id slot side)) (n + 1)
new-IsTable t n id slot side d v room real absent lands vacant =
    let (i, small, free) = count-Vacant t' table_size (omega (arith, counted)) in
    let ne : k ≢ i =
      λ e. real (ap (λ x. x.slot) (sym (update_self t k x)) ∙ ap (λ y. (t' y).slot) e ∙ free) in
    let here = place-zero i small in
    let p : Pending i 0 0 t = record {
      size = omega arith;
      stop = ap (λ y. (t y).slot) here ∙ ap (λ y. y.slot) (sym (update_ne t k i x ne)) ∙ free;
      filled = λ u lo hi. absurd (omega arith);
      within = λ u lo hi. absurd (omega arith);
      placed = λ j sj o out. v.placed j sj o;
      distinct = v.distinct;
    } in
    let w = filled-Pending p x d real lands vacant (λ e. ne (e ∙ here)) absent in
    record {
      placed = λ j sj o. w.placed j sj o (λ u lo hi. absurd (omega arith));
      distinct = w.distinct;
      counted = counted;
    }
  where
    k : ℕ
    k = place (home id) d

    x : Entry
    x = entry id slot side

    t' : Table
    t' = update t (place (home id) d) (entry id slot side)

    counted : count (update t (place (home id) d) (entry id slot side)) table_size ≡ n + 1
    counted = omega (
      arith,
      count-update t (place (home id) d) (entry id slot side) table_size (place-lt (home id) d),
      unit-Vacant (t (place (home id) d)) vacant,
      unit-Occupied (entry id slot side) real,
      v.counted,
    )

-- An id that is held already, written over.
over-IsTable :
    (t : Table) (n : ℕ) (id : OrderId) (slot side k : ℕ)
    → IsTable t n
    → k < table_size
    → slot ≢ empty_slot
    → Occupied (t k)
    → (t k).key ≡ id
    → IsTable (update t k (entry id slot side)) n
over-IsTable t n id slot side k v small real o e = record {
  placed = λ i si q.
      let (r, f) = seen i q in
      let (d, w, there) = v.placed i si r in
      rw f (
        d,
        record {
          small = w.small;
          busy = λ x less. keep (place (home (t i).key) x) (t i).key (w.busy x less);
          ends = inr (ap (λ x. (update t k x' x).key) there ∙ f);
        },
        there,
      );
  distinct = λ i j si sj oi oj same.
      let (ri, f) = seen i oi in
      let (rj, g) = seen j oj in v.distinct i j si sj ri rj (sym f ∙ same ∙ g);
  counted = omega (
    arith,
    count-update t k x' table_size small,
    unit-Occupied (t k) o,
    unit-Occupied x' real,
    v.counted,
  );
}
  where
    x' : Entry
    x' = entry id slot side

    -- Which entries are occupied, and their keys, do not change.
    seen :
        (i : ℕ)
        → Occupied (update t k (entry id slot side) i)
        → Occupied (t i) × ((update t k (entry id slot side) i).key ≡ (t i).key)
    seen i q = elim (ℕ_discrete k i) [
      | yes z ↦ (
        λ y. o (ap (λ x. (t x).slot) z ∙ y),
        ap (λ x. (update t k (entry id slot side) x).key) (sym z)
            ∙ ap (λ x. x.key) (update_self t k (entry id slot side))
            ∙ sym e
            ∙ ap (λ x. (t x).key) z,
      )
      | no z ↦
          let w = update_ne t k i (entry id slot side) z in
          (λ y. q (ap (λ x. x.slot) w ∙ y), ap (λ x. x.key) w)
    ]

    keep : (i : ℕ) (q : OrderId) → Other (t i) q → Other (update t k (entry id slot side) i) q
    keep i q (r, ne) = elim (ℕ_discrete k i) [
      | yes z ↦
          let w =
            ap (update t k (entry id slot side)) (sym z) ∙ update_self t k (entry id slot side) in
          (
            λ y. real (ap (λ x. x.slot) (sym w) ∙ y),
            λ y. ne (ap (λ x. (t x).key) (sym z) ∙ e ∙ ap (λ x. x.key) (sym w) ∙ y),
          )
      | no z ↦ rw (update_ne t k i (entry id slot side) z) (r, ne)
    ]

-- On a table that holds a finite map and has two vacant entries, `insert` of a slot other than the empty
-- mark ends and returns true; the table then holds the map with the id set, whether or not it had the id.
pub insert-Models :
    (t : Table) (n : ℕ) (f : OrderId → Option (ℕ × ℕ)) (id : OrderId) (slot side : ℕ)
    → Models t n f
    → n + 1 < table_size
    → slot ≢ empty_slot
    → (t' : Table) × (n' : ℕ) × (insert t id slot side ≡ some (t', true))
      × (n' + held (f id) ≡ n + 1)
      × Models t' n' (put f id (some (slot, side)))
insert-Models t n f id slot side v room real = at (f id) refl
  where
    at :
        (r : Option (ℕ × ℕ))
        → f id ≡ r
        → (t' : Table) × (n' : ℕ) × (insert t id slot side ≡ some (t', true))
          × (n' + held r ≡ n + 1)
          × Models t' n' (put f id (some (slot, side)))
    at none e =
        let absent : Reads t id none = subst (Reads t id) e (v.reads id) in
        let (d, w, vacant) = probe_absent v.valid (omega arith) id absent in
        let k = place (home id) d in
        (
          update t k (entry id slot side),
          n + 1,
          insert-at t id slot side k (probe-Lands t id d w) (inl vacant),
          omega arith,
          record {
            valid = new-IsTable t n id slot side d v.valid room real absent w vacant;
            reads =
                written-Reads t f id slot side k (place-lt (home id) d) real (inl vacant) v.reads;
          },
        )
    at (some (s, b)) e =
        let (i, small, o, key, p, q) : Reads t id (some (s, b)) =
          subst (Reads t id) e (v.reads id) in
        (
          update t i (entry id slot side),
          n,
          insert-at t id slot side i (probe_held v.valid (omega arith) id i small o key) (inr key),
          refl,
          record {
            valid = over-IsTable t n id slot side i v.valid small real o key;
            reads = written-Reads t f id slot side i small real (inr key) v.reads;
          },
        )
