-- ===== src/OrderBook/Index/Cluster.antt =====
-- The run of entries behind a removed one, while `OrderIndex::remove` puts them back one by one.
use mathlib.Core.Path.{subst}
use options_engine.Prelude.{
  ℕ, ◌+◌, ◌-◌, ◌≤◌, ◌<◌, ◌≡◌, refl, ap, sym, ◌∙◌, ◌≢◌, inr, arith, ℕ_discrete, dec_lt,
}
use options_engine.Prelude.Arrays.{update, update_self, update_ne}
use options_engine.Types.{OrderId}
use options_engine.OrderBook.Index.{Entry, Table, table_size, home}
use options_engine.OrderBook.Index.Probe.{
  Occupied, Vacant, Other, place, place-place, place-ne, Lands,
}

-- The entry at `i` is where the walk for its key ends.
abbrev pub Placed : Table → ℕ → Type 0
Placed t i = (d : ℕ) × Lands t (t i).key d × (place (home (t i).key) d ≡ i)

abbrev pub KeysDistinct : Table → Type 0
KeysDistinct t =
    (i j : ℕ)
    → i < table_size
    → j < table_size
    → Occupied (t i)
    → Occupied (t j)
    → (t i).key ≡ (t j).key
    → i ≡ j

-- From `h` on, the entries `c, …, m - 1` steps away are still to be put back, the entry `m` steps away is
-- vacant, and the home of each pending entry is such that its walk does not get to that one.
pub record Pending (h m c : ℕ) (t : Table) : Type 0 where
  pub size : m < table_size
  pub stop : Vacant (t (place h m))
  pub filled : (u : ℕ) → c ≤ u → u < m → Occupied (t (place h u))
  pub within :
      (u : ℕ)
      → c ≤ u
      → u < m
      → (d : ℕ) × (d < table_size)
        × (place (home (t (place h u)).key) d ≡ place h u)
        × ((e : ℕ) → e ≤ d → place (home (t (place h u)).key) e ≢ place h m)
  pub placed :
      (i : ℕ)
      → i < table_size
      → Occupied (t i)
      → ((u : ℕ) → c ≤ u → u < m → i ≢ place h u)
      → Placed t i
  pub distinct : KeysDistinct t

module _ {h m c : ℕ} {t : Table} (p : Pending h m c t) where
  -- The walk of an entry that is in place meets no pending entry.
  walk-ne :
      (id : OrderId) (d x : ℕ)
      → c < m
      → Lands t id d
      → Occupied (t (place (home id) d))
      → ((u : ℕ) → c ≤ u → u < m → place (home id) d ≢ place h u)
      → x < d
      → place (home id) x ≢ place h c
  walk-ne id d x lt v o out less e = elim (dec_lt (c + (d - x)) m) [
    | yes q ↦ out (c + (d - x)) (omega arith) q (sym (ap (place (home id)) there) ∙ shift (d - x))
    | no q ↦ elim (ℕ_discrete (c + (d - x)) m) [
      | yes r ↦
          let last : place (home id) d ≡ place h m =
            ap (place (home id)) (sym there) ∙ shift (d - x) ∙ ap (place h) r in
          o (ap (λ y. (t y).slot) last ∙ p.stop)
      | no r ↦
          let n : ℕ = x + (m - c) in
          let met : place (home id) n ≡ place h m = shift (m - c) ∙ ap (place h) (omega arith) in
          (v.busy n (omega arith)).0 (ap (λ y. (t y).slot) met ∙ p.stop)
    ]
  ]
    where
      shift : (k : ℕ) → place (home id) (x + k) ≡ place h (c + k)
      shift k = sym (place-place (home id) x k) ∙ ap (λ a. place a k) e ∙ place-place h c k

      there : x + (d - x) ≡ d
      there = omega arith

  -- Lifting the next pending entry out leaves the others in place.
  pub lifted-Pending : (v : Entry) → c < m → Vacant v → Pending h m (c + 1) (update t (place h c) v)
  lifted-Pending v lt vacant = record {
    size = p.size;
    stop = rw (update_ne t (place h c) (place h m) v (place-ne h c m lt p.size)) p.stop;
    filled = λ u lo hi. rw (later u lo hi) (p.filled u (omega arith) hi);
    within = λ u lo hi. rw (later u lo hi) (p.within u (omega arith) hi);
    placed = λ i k o out. stays i k o out;
    distinct = λ i j k l o q e.
        let (o', f) = kept i o in
        let (q', g) = kept j q in
        p.distinct i j k l o' q' (sym (ap (λ x. x.key) f) ∙ e ∙ ap (λ x. x.key) g);
  }
    where
      later : (u : ℕ) → c + 1 ≤ u → u < m → update t (place h c) v (place h u) ≡ t (place h u)
      later u lo hi =
          update_ne t (place h c) (place h u) v
            (place-ne h c u (omega arith) (omega (arith, p.size)))

      -- What is occupied still was not lifted out.
      kept_ne : (i : ℕ) → Occupied (update t (place h c) v i) → place h c ≢ i
      kept_ne i o e = o (
          ap (λ x. (update t (place h c) v x).slot) (sym e)
          ∙ ap (λ x. x.slot) (update_self t (place h c) v)
          ∙ vacant)

      kept :
          (i : ℕ)
          → Occupied (update t (place h c) v i)
          → Occupied (t i) × (update t (place h c) v i ≡ t i)
      kept i o =
          let q = update_ne t (place h c) i v (kept_ne i o) in (λ z. o (ap (λ x. x.slot) q ∙ z), q)

      stays :
          (i : ℕ)
          → i < table_size
          → Occupied (update t (place h c) v i)
          → ((u : ℕ) → c + 1 ≤ u → u < m → i ≢ place h u)
          → Placed (update t (place h c) v) i
      stays i k o out =
          let (o', q) = kept i o in
          let out' : (u : ℕ) → c ≤ u → u < m → i ≢ place h u = λ u lo hi. elim (ℕ_discrete c u) [
            | yes e ↦ λ z. kept_ne i o (ap (place h) e ∙ sym z)
            | no ne ↦ out u (omega arith) hi
          ] in
          let (d, w, e) = p.placed i k o' out' in
          rw q (
            d,
            record {
              small = w.small;
              busy = λ x less.
                  rw
                    (update_ne t (place h c) (place (home (t i).key) x) v
                      (λ z. walk-ne (t i).key d x lt w (rw e o') (rw e out') less (sym z)))
                    (w.busy x less);
              ends = inr (ap (λ x. (update t (place h c) v x).key) e ∙ ap (λ x. x.key) q);
            },
            e,
          )

  -- An entry of a new key, put where its walk ends, is in place, and leaves the others in place.
  pub filled-Pending :
      (e : Entry) (d : ℕ)
      → Occupied e
      → Lands t e.key d
      → Vacant (t (place (home e.key) d))
      → place (home e.key) d ≢ place h m
      → ((i : ℕ) → i < table_size → Occupied (t i) → (t i).key ≢ e.key)
      → Pending h m c (update t (place (home e.key) d) e)
  filled-Pending e d occupied lands vacant off fresh = record {
    size = p.size;
    stop = rw (update_ne t k (place h m) e off) p.stop;
    filled = λ u lo hi. rw (still (place h u) (p.filled u lo hi)) (p.filled u lo hi);
    within = λ u lo hi. rw (still (place h u) (p.filled u lo hi)) (p.within u lo hi);
    placed = λ i small o out. elim (ℕ_discrete k i) [
      | yes q ↦ subst (Placed (update t k e)) q new
      | no q ↦ old i small q (rw (update_ne t k i e q) at o) out
    ];
    distinct = λ i j si sj oi oj same. elim (ℕ_discrete k i) [
      | yes q ↦ elim (ℕ_discrete k j) [
        | yes r ↦ sym q ∙ r
        | no r ↦ absurd (
            fresh j sj (rw (update_ne t k j e r) at oj)
              (sym (rw (update_ne t k j e r, ← q, update_self t k e) at same)))
      ]
      | no q ↦ elim (ℕ_discrete k j) [
        | yes r ↦ absurd (
            fresh i si (rw (update_ne t k i e q) at oi)
              (rw (update_ne t k i e q, ← r, update_self t k e) at same))
        | no r ↦
            p.distinct i j si sj (rw (update_ne t k i e q) at oi) (rw (update_ne t k j e r) at oj)
              (rw (update_ne t k i e q, update_ne t k j e r) at same)
      ]
    ];
  }
    where
      k : ℕ
      k = place (home e.key) d

      still : (i : ℕ) → Occupied (t i) → update t k e i ≡ t i
      still i o = update_ne t k i e (λ q. o (ap (λ x. (t x).slot) (sym q) ∙ vacant))

      walk :
          (id : OrderId) (n x : ℕ)
          → Lands t id n
          → x < n
          → Other (update t k e (place (home id) x)) id
      walk id n x w less = let b = w.busy x less in rw (still (place (home id) x) b.0) b

      new : Placed (update t k e) k
      new = rw (update_self t k e) (
        d,
        record {
          small = lands.small;
          busy = λ x less. walk e.key d x lands less;
          ends = inr (ap (λ x. x.key) (update_self t k e));
        },
        refl,
      )

      old :
          (i : ℕ)
          → i < table_size
          → k ≢ i
          → Occupied (t i)
          → ((u : ℕ) → c ≤ u → u < m → i ≢ place h u)
          → Placed (update t k e) i
      old i small ne o out =
          let (n, w, q) = p.placed i small o out in
          let same = update_ne t k i e ne in
          rw same (
            n,
            record {
              small = w.small;
              busy = λ x less. walk (t i).key n x w less;
              ends = inr (ap (λ x. (update t k e x).key) q ∙ ap (λ x. x.key) same);
            },
            q,
          )
