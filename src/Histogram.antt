-- ===== src/Histogram.antt =====
-- include/util/histogram.hpp: the latency histogram. A percentile's `static_cast<uint64_t>(p * total)`
-- is floating point, so the target count is an argument; printing is left out.
pub mod Buckets
pub mod Records
mod Tests
use options_engine.Prelude.{ℕ, zero, suc, ◌+◌, ◌-◌, ◌*◌, ◌/◌, Bool, ltb, ◌==◌, if◌then◌else◌}
use options_engine.Prelude.Words.{add64, sub64}
use options_engine.Prelude.Arrays.{Array, update}

abbrev pub sub_micro_buckets : ℕ
sub_micro_buckets = 1000

abbrev pub low_micro_buckets : ℕ
low_micro_buckets = 90

abbrev pub mid_micro_buckets : ℕ
mid_micro_buckets = 90

abbrev pub high_micro_buckets : ℕ
high_micro_buckets = 90

abbrev pub total_buckets : ℕ
total_buckets = sub_micro_buckets + low_micro_buckets + mid_micro_buckets + high_micro_buckets + 1

unfoldable pub bucket_index : ℕ → ℕ
bucket_index ns =
    if ltb ns 1000
    then ns
    else if ltb ns 10000
    then sub_micro_buckets + ns / 100 - 10
    else if ltb ns 100000
    then sub_micro_buckets + low_micro_buckets + ns / 1000 - 10
    else if ltb ns 1000000
    then sub_micro_buckets + low_micro_buckets + mid_micro_buckets + ns / 10000 - 10
    else total_buckets - 1

unfoldable pub bucket_lower_ns : ℕ → ℕ
bucket_lower_ns idx =
    let low = idx - sub_micro_buckets in
    let mid = low - low_micro_buckets in
    let high = mid - mid_micro_buckets in
    if ltb idx sub_micro_buckets
    then idx
    else if ltb low low_micro_buckets
    then (low + 10) * 100
    else if ltb mid mid_micro_buckets
    then (mid + 10) * 1000
    else if ltb high high_micro_buckets
    then (high + 10) * 10000
    else 1000000

unfoldable pub bucket_upper_ns : ℕ → ℕ
unfolding bucket_lower_ns
bucket_upper_ns idx = sub64 (bucket_lower_ns (idx + 1)) 1

-- The counters, and a snapshot of them, which has the same fields.
pub record Histogram : Type 0 where
  pub counts : Array ℕ
  pub total : ℕ
  pub sum_ns : ℕ
  pub max_ns : ℕ

-- One call on its own. Atomic additions wrap.
unfoldable pub record_latency : Histogram → ℕ → Histogram
unfolding bucket_index
record_latency h ns =
    let idx = bucket_index ns in
    record {
      counts = update h.counts idx (add64 (h.counts idx) 1);
      total = add64 h.total 1;
      sum_ns = add64 h.sum_ns ns;
      max_ns = if ltb h.max_ns ns then ns else h.max_ns;
    }

unfoldable pub reset : Histogram → Histogram
reset h = record { counts = λ _. 0; total = 0; sum_ns = 0; max_ns = 0 }

-- The loop of `percentile` from bucket `i`, with `n` left.
unfoldable pub percentile_from : Histogram → ℕ → ℕ → ℕ → ℕ → ℕ
unfolding bucket_lower_ns
percentile_from h target i zero cumulative = h.max_ns
percentile_from h target i (suc n) cumulative =
    let reached = add64 cumulative (h.counts i) in
    let rest = percentile_from h target (i + 1) n reached in
    if ltb target reached then bucket_lower_ns i else rest

unfoldable pub percentile : Histogram → ℕ → ℕ
unfolding percentile_from
percentile h target = if h.total == 0 then 0 else percentile_from h target 0 total_buckets 0
