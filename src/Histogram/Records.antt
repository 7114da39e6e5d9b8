-- ===== src/Histogram/Records.antt =====
-- include/util/histogram.hpp: what the counters add up to, and what a percentile is.
use options_engine.Prelude.{
  ℕ, zero, suc, ◌+◌, ◌≤◌, ◌<◌, ◌≡◌, refl, ◌⊎◌, inl, inr, arith, ltb, ◌==◌, false, Bool-cases,
}
use options_engine.Prelude.Words.{u64_mod, add64, add64_exact}
use options_engine.Prelude.Arrays.{Array, update}
use options_engine.Histogram.{
  Histogram, total_buckets, bucket_index, bucket_lower_ns, record_latency, percentile_from,
  percentile,
}
use options_engine.Histogram.Buckets.{bucket_index_bound}

-- `f[0] + … + f[n - 1]`
pub sum_below : Array ℕ → ℕ → ℕ
sum_below f zero = 0
sum_below f (suc n) = sum_below f n + f n

-- The counters add up to the total, which fits its 64 bits, as each counter then does.
pub record IsConsistent (h : Histogram) : Type 0 where
  pub added : sum_below h.counts total_buckets ≡ h.total
  pub small : h.total < u64_mod

sum_below-le : (f : Array ℕ) (i n : ℕ) → i < n → f i ≤ sum_below f n
unfolding sum_below
sum_below-le f i zero h = absurd (omega arith)
sum_below-le f i (suc n) h = ground (arith, sum_below-le f i n, last)
  where
    last : (i < n) ⊎ (i ≡ n)
    last = ground arith

sum_below-update_of_le :
    (f : Array ℕ) (i v n : ℕ) → n ≤ i → sum_below (update f i v) n ≡ sum_below f n
unfolding sum_below update
sum_below-update_of_le f i v zero h = refl
sum_below-update_of_le f i v (suc n) h = ground (arith, sum_below-update_of_le f i v n)

sum_below-bump :
    (f : Array ℕ) (i n : ℕ) → i < n → sum_below (update f i (f i + 1)) n ≡ sum_below f n + 1
unfolding sum_below update
sum_below-bump f i zero h = absurd (omega arith)
sum_below-bump f i (suc n) h =
    ground (arith, sum_below-bump f i n, sum_below-update_of_le f i (f i + 1) n)

-- On consistent counters with a total below 2 ^ 64 - 1, recording a latency keeps them consistent and
-- adds 1 to the total, and the maximum is at least the latency and the maximum before.
pub record-IsConsistent :
    (h : Histogram) (ns : ℕ)
    → IsConsistent h
    → h.total + 1 < u64_mod
    → IsConsistent (record_latency h ns)
      × ((record_latency h ns).total ≡ h.total + 1)
      × (ns ≤ (record_latency h ns).max_ns)
      × (h.max_ns ≤ (record_latency h ns).max_ns)
unfolding record_latency
record-IsConsistent h ns v room =
    let i = bucket_index ns in
    let b = bucket_index_bound ns in
    let bump = sum_below-bump h.counts i total_buckets b in
    let low = sum_below-le h.counts i total_buckets b in
    let e1 = add64_exact (h.counts i) 1 (omega (arith, low, v.added)) in
    let e2 = add64_exact h.total 1 (omega arith) in
    (
      record {
        added =
            let s : sum_below (update h.counts i (add64 (h.counts i) 1)) total_buckets
                ≡ add64 h.total 1 =
              (let open1 = e1 in rw (e1, e2) (omega (arith, bump, v.added))) in
            s;
        small = rw e2 (omega arith);
      },
      e2,
      ground arith,
      ground arith,
    )

-- What `percentile` returns where `target` is below the total: the lower bound of bucket `i`.
pub record IsRank (h : Histogram) (target i : ℕ) : Type 0 where
  pub in_range : i < total_buckets
  pub below : sum_below h.counts i ≤ target
  pub reached : target < sum_below h.counts (suc i)

sum_below_mono : (f : Array ℕ) (m n : ℕ) → m ≤ n → sum_below f m ≤ sum_below f n
unfolding sum_below
sum_below_mono f m zero h = ground arith
sum_below_mono f m (suc n) h = ground (arith, sum_below_mono f m n, last)
  where
    last : (m ≤ n) ⊎ (m ≡ suc n)
    last = ground arith

percentile_from-IsRank :
    (h : Histogram) (target i n cum : ℕ)
    → i + n ≡ total_buckets
    → cum ≡ sum_below h.counts i
    → sum_below h.counts i ≤ target
    → target < sum_below h.counts total_buckets
    → sum_below h.counts total_buckets < u64_mod
    → (j : ℕ) × IsRank h target j × (percentile_from h target i n cum ≡ bucket_lower_ns j)
unfolding percentile_from
percentile_from-IsRank h target i zero cum e c lo hi small =
    let e' : i ≡ total_buckets = omega arith in absurd (omega (arith, ap' e'))
  where
    ap' : i ≡ total_buckets → sum_below h.counts i ≡ sum_below h.counts total_buckets
    ap' p = rw p
percentile_from-IsRank h target i (suc n) cum e c lo hi small =
    elim (Bool-cases (ltb target (add64 cum (h.counts i)))) [
      | inl t ↦ (
        i,
        record { in_range = omega arith; below = lo; reached = ground (arith, exact, next) },
        rw t,
      )
      | inr t ↦
          let (j, rank, eq) =
            percentile_from-IsRank h target (i + 1) n (add64 cum (h.counts i)) (omega arith)
              (ground (arith, exact, next, one)) (ground (arith, exact, next, one)) hi small in
          (j, rank, rw t eq)
    ]
  where
    next : sum_below h.counts (suc i) ≡ sum_below h.counts i + h.counts i
    next = unfold sum_below in refl

    one : sum_below h.counts (i + 1) ≡ sum_below h.counts (suc i)
    one = let p : i + 1 ≡ suc i = omega arith in rw p

    exact : add64 cum (h.counts i) ≡ sum_below h.counts i + h.counts i
    exact =
        let le = sum_below_mono h.counts (suc i) total_buckets (omega arith) in
        rw c (add64_exact (sum_below h.counts i) (h.counts i) (omega (arith, le, next)))

test_false : (total target : ℕ) → target < total → (total == 0) ≡ false
test_false total target lt = ground arith

-- On consistent counters, for a target below the total, `percentile` is the lower bound of a bucket
-- with at most `target` samples in the buckets before it and more than `target` up to it.
pub percentile-IsRank :
    (h : Histogram) (target : ℕ)
    → IsConsistent h
    → target < h.total
    → (j : ℕ) × IsRank h target j × (percentile h target ≡ bucket_lower_ns j)
unfolding percentile
percentile-IsRank h target v lt =
    let (j, rank, eq) =
      percentile_from-IsRank h target 0 total_buckets 0 refl (unfold sum_below in refl)
        (unfold sum_below in omega arith) (omega (arith, v.added))
        (omega (arith, v.added, v.small)) in
    (j, rank, rw nonempty eq)
  where
    nonempty : (h.total == 0) ≡ false
    nonempty = test_false h.total target lt

pub sum_below-zero : (n : ℕ) → sum_below (λ _. 0) n ≡ 0
unfolding sum_below
sum_below-zero zero = refl
sum_below-zero (suc n) = omega (arith, sum_below-zero n)
