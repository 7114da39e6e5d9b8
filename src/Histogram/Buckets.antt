-- ===== src/Histogram/Buckets.antt =====
-- include/util/histogram.hpp: the bucket layout.
use options_engine.Prelude.{ℕ, ◌≤◌, ◌<◌, ◌≡◌, arith}
use options_engine.Prelude.Words.{sub64}
use options_engine.Histogram.{bucket_index, bucket_lower_ns, bucket_upper_ns, total_buckets}

-- Every latency has a bucket of the array.
pub bucket_index_bound : (ns : ℕ) → bucket_index ns < total_buckets
unfolding bucket_index
bucket_index_bound ns = ground arith

-- Below a millisecond, a latency lies between the printed bounds of its own bucket.
pub bucket_contains :
    (ns : ℕ)
    → ns < 1000000
    → (bucket_lower_ns (bucket_index ns) ≤ ns) × (ns ≤ bucket_upper_ns (bucket_index ns))
unfolding bucket_index bucket_lower_ns bucket_upper_ns sub64
bucket_contains ns h = ground arith

-- The lower bound of each bucket is recorded in that bucket.
pub bucket_index-lower : (idx : ℕ) → idx < total_buckets → bucket_index (bucket_lower_ns idx) ≡ idx
unfolding bucket_index bucket_lower_ns
bucket_index-lower idx h = ground arith

-- A longer latency never goes to an earlier bucket.
pub bucket_index_mono : (a b : ℕ) → a ≤ b → bucket_index a ≤ bucket_index b
unfolding bucket_index
bucket_index_mono a b h = ground arith

-- The lower bound is below every latency of the bucket, the last one included.
pub bucket_lower-le : (ns : ℕ) → bucket_lower_ns (bucket_index ns) ≤ ns
unfolding bucket_index bucket_lower_ns
bucket_lower-le ns = ground arith

-- The printed upper bound of the bucket of a latency of a millisecond or more lies below its lower
-- bound.
pub overflow_bounds_inverted :
    (ns : ℕ) → 1000000 ≤ ns → bucket_upper_ns (bucket_index ns) < bucket_lower_ns (bucket_index ns)
unfolding bucket_index bucket_lower_ns bucket_upper_ns sub64
overflow_bounds_inverted ns h = ground arith
