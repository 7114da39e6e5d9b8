-- ===== src/Histogram/Tests.antt =====
-- The histogram's theorems at concrete latencies.
use options_engine.Prelude.{ℕ, ◌≤◌, ◌<◌, ◌≡◌, refl, arith}
use options_engine.Prelude.Words.{add64}
use options_engine.Histogram.{
  Histogram, total_buckets, bucket_index, bucket_lower_ns, bucket_upper_ns, record_latency,
  percentile,
}
use options_engine.Histogram.Buckets.{bucket_contains}
use options_engine.Histogram.Records.{
  IsConsistent, IsRank, sum_below-zero, record-IsConsistent, percentile-IsRank,
}

-- 54,321 ns lies in the bucket of 54 µs.
bucket_contains_example :
    (bucket_lower_ns (bucket_index 54321) ≤ 54321) × (54321 ≤ bucket_upper_ns (bucket_index 54321))
bucket_contains_example = bucket_contains 54321 (omega arith)

bucket_lower_54321 : bucket_lower_ns (bucket_index 54321) ≡ 54000
unfolding bucket_lower_ns bucket_index
bucket_lower_54321 = refl

abbrev fresh : Histogram
fresh = record { counts = λ _. 0; total = 0; sum_ns = 0; max_ns = 0 }

fresh-IsConsistent : IsConsistent fresh
fresh-IsConsistent = record { added = sum_below-zero total_buckets; small = omega arith }

record-IsConsistent_example :
    IsConsistent (record_latency fresh 1500)
    × ((record_latency fresh 1500).total ≡ 1)
    × (1500 ≤ (record_latency fresh 1500).max_ns)
    × (0 ≤ (record_latency fresh 1500).max_ns)
record-IsConsistent_example = record-IsConsistent fresh 1500 fresh-IsConsistent (omega arith)

one_sample : (target : ℕ) → target < 1 → target < (record_latency fresh 1500).total
unfolding record_latency add64
one_sample target h = h

percentile-IsRank_example :
    (j : ℕ) × IsRank (record_latency fresh 1500) 0 j
    × (percentile (record_latency fresh 1500) 0 ≡ bucket_lower_ns j)
percentile-IsRank_example =
    percentile-IsRank (record_latency fresh 1500) 0 record-IsConsistent_example.0
      (one_sample 0 (omega arith))
