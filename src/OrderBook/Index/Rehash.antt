-- ===== src/OrderBook/Index/Rehash.antt =====
-- The second loop of `OrderIndex::remove`: it ends, with every entry in place and none lost.
use options_engine.Prelude.{
  ℕ, zero, suc, ◌+◌, ◌%◌, ◌≤◌, ◌<◌, ◌≡◌, refl, ap, sym, ◌∙◌, ◌≢◌, inl, inr, Bool, true, false,
  Option, none, some, arith, ◌==◌, if◌then◌else◌, ℕ_discrete, some-eq, none-ne,
}
use options_engine.Prelude.Arrays.{update, update_self, update_ne}
use options_engine.Types.{OrderId}
use options_engine.OrderBook.Index.{Entry, Table, table_size, empty_slot, home, probe, rehash}
use options_engine.OrderBook.Index.Probe.{
  Occupied, Vacant, place, place-lt, next-place, Lands, Vacant-Lands, Lands-le, probe-Lands,
}
use options_engine.OrderBook.Index.Cluster.{
  Placed, KeysDistinct, Pending, lifted-Pending, filled-Pending,
}
use options_engine.OrderBook.Index.Entries.{Reads, count, moved-Reads, moved-count}

-- Every entry is in place, and the entries are those of `t`.
pub record IsRehashed (t t' : Table) : Type 0 where
  pub placed : (i : ℕ) → i < table_size → Occupied (t' i) → Placed t' i
  pub distinct : KeysDistinct t'
  pub counted : count t' table_size ≡ count t table_size
  pub reads : (id : OrderId) (r : Option (ℕ × ℕ)) → Reads t id r → Reads t' id r

abbrev lifted : Table → ℕ → Entry
lifted t j = record (t j) { slot = empty_slot }

-- One round: the next pending entry is lifted out and put where its walk ends.
record IsStep (h m c : ℕ) (t : Table) (k : ℕ) : Type 0 where
  lands : probe (update t (place h c) (lifted t (place h c))) (t (place h c)).key ≡ some k
  next :
      Pending h m (c + 1) (update (update t (place h c) (lifted t (place h c))) k (t (place h c)))
  counted :
      count (update (update t (place h c) (lifted t (place h c))) k (t (place h c))) table_size
      ≡ count t table_size
  reads :
      (id : OrderId) (r : Option (ℕ × ℕ))
      → Reads t id r
      → Reads (update (update t (place h c) (lifted t (place h c))) k (t (place h c))) id r

Pending-IsStep : (h m c : ℕ) (t : Table) → Pending h m c t → c < m → (k : ℕ) × IsStep h m c t k
Pending-IsStep h m c t p lt =
    let out = lifted-Pending p v lt refl in
    let (d, lands) = Vacant-Lands t' e.key j (place-lt h c) gone in
    let (far, _, there, off) = p.within c (omega arith) lt in
    let near = Lands-le t' e.key d far lands (inl (ap (λ x. (t' x).slot) there ∙ gone)) in
    let vacant = to_vacant d lands in
    (
      place (home e.key) d,
      record {
        lands = probe-Lands t' e.key d lands;
        next = filled-Pending out e d occupied lands vacant (off d near) fresh;
        counted =
            moved-count t j (place (home e.key) d) v refl occupied (place-lt h c)
              (place-lt (home e.key) d) vacant;
        reads =
            moved-Reads t j (place (home e.key) d) v refl occupied (place-lt h c)
              (place-lt (home e.key) d) vacant;
      },
    )
  where
    j : ℕ
    j = place h c

    e : Entry
    e = t (place h c)

    v : Entry
    v = lifted t (place h c)

    t' : Table
    t' = update t (place h c) (lifted t (place h c))

    occupied : Occupied (t (place h c))
    occupied = p.filled c (omega arith) lt

    gone : Vacant (update t (place h c) (lifted t (place h c)) (place h c))
    gone = ap (λ x. x.slot) (update_self t (place h c) (lifted t (place h c)))

    fresh :
        (i : ℕ)
        → i < table_size
        → Occupied (update t (place h c) (lifted t (place h c)) i)
        → (update t (place h c) (lifted t (place h c)) i).key ≢ (t (place h c)).key
    fresh i small o q = elim (ℕ_discrete (place h c) i) [
      | yes r ↦ o (ap (λ x. (update t (place h c) (lifted t (place h c)) x).slot) (sym r) ∙ gone)
      | no r ↦
          let same = update_ne t (place h c) i (lifted t (place h c)) r in
          r (
            p.distinct (place h c) i (place-lt h c) small occupied
              (λ z. o (ap (λ x. x.slot) same ∙ z)) (sym q ∙ ap (λ x. x.key) same))
    ]

    to_vacant :
        (d : ℕ)
        → Lands (update t (place h c) (lifted t (place h c))) (t (place h c)).key d
        → Vacant (update t (place h c) (lifted t (place h c)) (place (home (t (place h c)).key) d))
    to_vacant d w = elim w.ends [
      | inl z ↦ z
      | inr q ↦
          elim (ℕ_discrete
            (update t (place h c) (lifted t (place h c)) (place (home (t (place h c)).key) d)).slot
            empty_slot) [
              | yes z ↦ z
              | no o ↦ absurd (
                  fresh (place (home (t (place h c)).key) d) (place-lt (home (t (place h c)).key) d)
                    o q)
            ]
    ]

pub Vacant-test : (e : Entry) → Vacant e → (e.slot == empty_slot) ≡ true
Vacant-test e v = ground arith

pub Occupied-test : (e : Entry) → Occupied e → (e.slot == empty_slot) ≡ false
Occupied-test e v = ground arith

-- The two ways through a round of the loop.
choose_done : {A : Type 0} (b : Bool) (x y : A) → b ≡ true → ◌≡◌ {A = A} (if b then x else y) x
choose_done true x y e = refl
choose_done false x y e = cc

choose_next :
    {A B : Type 0} (b : Bool) (o : Option B) (x : Option A) (f : B → Option A) (k : B)
    → b ≡ false
    → o ≡ some k
    → (if b then x else elim o [ none ↦ none | some k ↦ f k ]) ≡ f k
choose_next true o x f k e q = cc
choose_next false none x f k e q = none-ne q
choose_next false (some k') x f k e q = ap f (some-eq q)

rehash-Vacant : (n : ℕ) (t : Table) (j : ℕ) → Vacant (t j) → rehash (suc n) t j ≡ some t
unfolding rehash
rehash-Vacant n t j v = choose_done ((t j).slot == empty_slot) _ _ (Vacant-test (t j) v)

rehash-Occupied :
    (n : ℕ) (t : Table) (j k : ℕ)
    → Occupied (t j)
    → probe (update t j (lifted t j)) (t j).key ≡ some k
    → rehash (suc n) t j
      ≡ rehash n (update (update t j (lifted t j)) k (t j)) ((j + 1) % table_size)
unfolding rehash
rehash-Occupied n t j k o lands =
    choose_next ((t j).slot == empty_slot) (probe (update t j (lifted t j)) (t j).key) (some t)
      (λ k. rehash n (update (update t j (lifted t j)) k (t j)) ((j + 1) % table_size)) k
      (Occupied-test (t j) o) lands

-- The loop gets to the vacant entry in as many rounds as entries are pending.
pub rehash-IsRehashed :
    (n h m c : ℕ) (t : Table)
    → Pending h m c t
    → c ≤ m
    → m < c + n
    → (t' : Table) × (rehash n t (place h c) ≡ some t') × IsRehashed t t'
rehash-IsRehashed zero h m c t p le fuel = absurd (omega arith)
rehash-IsRehashed (suc n) h m c t p le fuel = elim (ℕ_discrete c m) [
  | yes q ↦ (
    t,
    rehash-Vacant n t (place h c) (ap (λ x. (t (place h x)).slot) q ∙ p.stop),
    record {
      placed = λ i small o. p.placed i small o (λ u lo hi. absurd (omega arith));
      distinct = p.distinct;
      counted = refl;
      reads = λ id r v. v;
    },
  )
  | no q ↦
      let (k, s) = Pending-IsStep h m c t p (omega arith) in
      let (t', ends, v) = rehash-IsRehashed n h m (c + 1) _ s.next (omega arith) (omega arith) in
      (
        t',
        rehash-Occupied n t (place h c) k (p.filled c (omega arith) (omega arith)) s.lands
            ∙ ap (rehash n _) (next-place h c)
            ∙ ends,
        record {
          placed = v.placed;
          distinct = v.distinct;
          counted = v.counted ∙ s.counted;
          reads = λ id r w. v.reads id r (s.reads id r w);
        },
      )
]
