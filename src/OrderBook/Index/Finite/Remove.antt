-- ===== src/OrderBook/Index/Finite/Remove.antt =====
-- `OrderIndex::remove` on the finite map.
use mathlib.Core.Path.{subst}
use options_engine.Prelude.{
  ℕ, zero, suc, ◌+◌, ◌-◌, ◌%◌, ◌≤◌, ◌<◌, ◌≡◌, refl, ap, sym, ◌∙◌, ◌≢◌, ◌⊎◌, inl, inr, Bool, true,
  false, Option, none, some, arith, ◌==◌, if◌then◌else◌, ℕ_discrete, Bool-cases, some-eq, none-ne,
}
use options_engine.Prelude.Arrays.{update, update_self, update_ne}
use options_engine.Types.{OrderId}
use options_engine.OrderBook.Index.{
  Entry, Table, table_size, empty_slot, home, probe, rehash, remove,
}
use options_engine.OrderBook.Index.Probe.{
  Occupied, Vacant, place, place-lt, place-zero, place-ne, place-onto, next-place, probe-Lands,
}
use options_engine.OrderBook.Index.Cluster.{Pending, lifted-Pending}
use options_engine.OrderBook.Index.Entries.{
  Reads, count, count-update, unit-Vacant, unit-Occupied, count-Vacant,
}
use options_engine.OrderBook.Index.Rehash.{Vacant-test, Occupied-test, rehash-IsRehashed}
use options_engine.OrderBook.Index.Finite.{IsTable, Models, put, held, probe_held, probe_absent}

abbrev pub is_held : Option (ℕ × ℕ) → Bool
is_held none = false
is_held (some x) = true

cleared : Entry → Entry
cleared e = record { key = 0; slot = empty_slot; side = e.side }

-- The first vacant entry after `h`.
next-Vacant :
    (t : Table) (h n u : ℕ)
    → ((e : ℕ) → u ≤ e → e < u + n → Occupied (t (place h e)))
      ⊎ ((m : ℕ) × (u ≤ m)
          × (m < u + n)
          × Vacant (t (place h m))
          × ((e : ℕ) → u ≤ e → e < m → Occupied (t (place h e))))
next-Vacant t h zero u = inl (λ e lo hi. absurd (omega arith))
next-Vacant t h (suc n) u = elim (ℕ_discrete (t (place h u)).slot empty_slot) [
  | yes v ↦ inr (u, omega arith, omega arith, v, λ e lo hi. absurd (omega arith))
  | no o ↦ elim (next-Vacant t h n (u + 1)) [
    | inl all ↦ inl (also o (u + suc n) (λ e lo hi. all e lo (omega arith)))
    | inr (m, lo, hi, v, all) ↦ inr (m, omega arith, omega arith, v, also o m all)
  ]
]
  where
    also :
        Occupied (t (place h u))
        → (m : ℕ) → ((e : ℕ) → u + 1 ≤ e → e < m → Occupied (t (place h e)))
        → (e : ℕ) → u ≤ e
        → e < m
        → Occupied (t (place h e))
    also o m all e lo hi = elim (ℕ_discrete u e) [
      | yes q ↦ subst (λ x. Occupied (t (place h x))) q o
      | no q ↦ all e (omega arith) hi
    ]

-- Around an occupied entry of a valid table nothing is pending yet.
IsTable-Pending :
    {t : Table} {n : ℕ}
    → IsTable t n
    → n < table_size
    → (h : ℕ) → h < table_size
    → Occupied (t h)
    → (m : ℕ) × (0 < m) × Pending h m 0 t
IsTable-Pending {t} {n} v room h small o = elim (next-Vacant t h (table_size - 1) 1) [
  | inl all ↦
      let (i, si, vacant) = count-Vacant t table_size (omega (arith, v.counted)) in
      let (d, less, there) = place-onto h i small si in
      absurd (
        filled (suc d) (λ e a b. all e a (omega arith)) d (omega arith)
          (ap (λ x. (t x).slot) there ∙ vacant))
  | inr (m, lo, hi, vacant, all) ↦ (
    m,
    omega arith,
    record {
      size = omega arith;
      stop = vacant;
      filled = λ u l k. filled m all u k;
      within = λ u l k.
          let q = filled m all u k in
          let (d, w, there) = v.placed (place h u) (place-lt h u) q in
          (
            d,
            w.small,
            there,
            λ e le z. elim (ℕ_discrete e d) [
              | yes r ↦
                  place-ne h u m k (omega arith)
                    (sym there ∙ ap (place (home (t (place h u)).key)) (sym r) ∙ z)
              | no r ↦ (w.busy e (omega arith)).0 (ap (λ x. (t x).slot) z ∙ vacant)
            ],
          );
      placed = λ i si q out. v.placed i si q;
      distinct = v.distinct;
    },
  )
]
  where
    first : Occupied (t (place h 0))
    first = subst (λ x. Occupied (t x)) (sym (place-zero h small)) o

    filled :
        (m : ℕ)
        → ((e : ℕ) → 1 ≤ e → e < m → Occupied (t (place h e)))
        → (u : ℕ) → u < m
        → Occupied (t (place h u))
    filled m all u k = elim (ℕ_discrete 0 u) [
      | yes q ↦ subst (λ x. Occupied (t (place h x))) q first
      | no q ↦ all u (omega arith) k
    ]

remove-absent :
    (t : Table) (id : OrderId) (k : ℕ)
    → probe t id ≡ some k
    → Vacant (t k)
    → remove t id ≡ some (t, false)
unfolding remove
remove-absent t id k e v = rw (e, remove) (at ((t k).slot == empty_slot) (Vacant-test (t k) v) _)
  where
    at :
        (b : Bool)
        → b ≡ true
        → (x : Option (Table × Bool)) → (if b then some (t, false) else x) ≡ some (t, false)
    at true q x = refl
    at false q x = cc

remove-held :
    (t : Table) (id : OrderId) (k : ℕ) {t' : Table}
    → probe t id ≡ some k
    → Occupied (t k)
    → rehash table_size (update t k (cleared (t k))) ((k + 1) % table_size) ≡ some t'
    → remove t id ≡ some (t', true)
unfolding remove cleared
remove-held t id k {t'} e o r =
    rw (e, remove) (at ((t k).slot == empty_slot) (Occupied-test (t k) o) _ r)
  where
    at :
        (b : Bool)
        → b ≡ false
        → (x : Option Table) → x ≡ some t'
        → ◌≡◌ {A = Option (Table × Bool)}
            (if b then some (t, false) else elim x [ none ↦ none | some t' ↦ some (t', true) ])
            (some (t', true))
    at true q x s = cc
    at false q none s = none-ne s
    at false q (some y) s = ap (λ z. some (z, true)) (some-eq s)

-- The table with the entry of `id` cleared, before the loop.
cleared-Reads :
    (t : Table) (n : ℕ) (f : OrderId → Option (ℕ × ℕ)) (id : OrderId) (k : ℕ)
    → Models t n f
    → k < table_size
    → Occupied (t k)
    → (t k).key ≡ id
    → (q : OrderId) → Reads (update t k (cleared (t k))) q (put f id none q)
cleared-Reads t n f id k v small o e q = elim (Bool-cases (q == id)) [
  | inl b ↦ rw b (λ i si r key.
      let (ne, r', w) = seen i r in
      ne (v.valid.distinct k i small si o r' (e ∙ sym (same b) ∙ sym key ∙ ap (λ x. x.key) w)))
  | inr b ↦ rw b (keep (f q) (other b) (v.reads q))
]
  where
    same : (q == id) ≡ true → q ≡ id
    same b = ground arith

    other : (q == id) ≡ false → q ≢ id
    other b = ground arith

    gone : Vacant (update t k (cleared (t k)) k)
    gone = unfold cleared in ap (λ x. x.slot) (update_self t k _)

    seen :
        (i : ℕ)
        → Occupied (update t k (cleared (t k)) i)
        → (k ≢ i) × Occupied (t i) × (update t k (cleared (t k)) i ≡ t i)
    seen i r =
        let ne : k ≢ i = λ z. r (ap (λ x. (update t k (cleared (t k)) x).slot) (sym z) ∙ gone) in
        let w = update_ne t k i (cleared (t k)) ne in (ne, λ z. r (ap (λ x. x.slot) w ∙ z), w)

    keep : (r : Option (ℕ × ℕ)) → q ≢ id → Reads t q r → Reads (update t k (cleared (t k))) q r
    keep none ne h =
        λ i si r key. let (_, r', w) = seen i r in h i si r' (ap (λ x. x.key) (sym w) ∙ key)
    keep (some (s, d)) ne (i, si, r, key, p, y) =
        let z : k ≢ i = λ z. ne (sym key ∙ ap (λ x. (t x).key) (sym z) ∙ e) in
        let w = update_ne t k i (cleared (t k)) z in
        (
          i,
          si,
          λ u. r (ap (λ x. x.slot) (sym w) ∙ u),
          ap (λ x. x.key) w ∙ key,
          ap (λ x. x.slot) w ∙ p,
          ap (λ x. x.side) w ∙ y,
        )

-- On a table that holds a finite map and has a vacant entry, `remove` ends for every id and tells whether
-- the map had it; the table then holds the map without the id.
pub remove-Models :
    (t : Table) (n : ℕ) (f : OrderId → Option (ℕ × ℕ)) (id : OrderId)
    → Models t n f
    → n < table_size
    → (t' : Table) × (n' : ℕ) × (remove t id ≡ some (t', is_held (f id)))
      × (n' + held (f id) ≡ n)
      × Models t' n' (put f id none)
remove-Models t n f id v room = at (f id) refl
  where
    same : (q : OrderId) → (q == id) ≡ true → q ≡ id
    same q b = ground arith

    at :
        (r : Option (ℕ × ℕ))
        → f id ≡ r
        → (t' : Table) × (n' : ℕ) × (remove t id ≡ some (t', is_held r))
          × (n' + held r ≡ n)
          × Models t' n' (put f id none)
    at none e =
        let absent : Reads t id none = subst (Reads t id) e (v.reads id) in
        let (d, w, vacant) = probe_absent v.valid room id absent in
        (
          t,
          n,
          remove-absent t id (place (home id) d) (probe-Lands t id d w) vacant,
          omega arith,
          record {
            valid = v.valid;
            reads = λ q. elim (Bool-cases (q == id)) [
              | inl b ↦ rw b (subst (λ x. Reads t x none) (sym (same q b)) absent)
              | inr b ↦ rw b (v.reads q)
            ];
          },
        )
    at (some (s, b)) e =
        let (i, small, o, key, _, _) : Reads t id (some (s, b)) =
          subst (Reads t id) e (v.reads id) in
        let (m, lo, p) = IsTable-Pending v.valid room i small o in
        let here = place-zero i small in
        let c = cleared (t i) in
        let p' : Pending i m 1 (update t i c) =
          subst (λ x. Pending i m 1 (update t x c)) here
            (lifted-Pending p c lo (unfold cleared in refl)) in
        let (t', ends, w) =
          rehash-IsRehashed table_size i m 1 (update t i c) p' lo (omega (arith, p.size)) in
        let step : (i + 1) % table_size ≡ place i 1 =
          ap (λ x. (x + 1) % table_size) (sym here) ∙ next-place i 0 in
        let u1 = count-update t i c table_size small in
        let u2 = unit-Occupied (t i) o in
        let u3 = unit-Vacant c (unfold cleared in refl) in
        (
          t',
          count t' table_size,
          remove-held t id i (probe_held v.valid room id i small o key) o
              (ap (rehash table_size (update t i c)) step ∙ ends),
          omega (arith, u1, u2, u3, w.counted, v.valid.counted),
          record {
            valid = record { placed = w.placed; distinct = w.distinct; counted = refl };
            reads = λ q. w.reads q (put f id none q) (cleared-Reads t n f id i v small o key q);
          },
        )
