-- ===== src/Diagnostics/Histogram.antt =====
-- `LatencyHistogram`: counts of latencies by size, and the bound below which 99 of 100 stay.
use quest_vd_wired.Common.{
  ℕ, zero, suc, ◌+◌, ◌-◌, ◌*◌, ◌/◌, ◌%◌, ◌^◌, ◌≡◌, ◌≤◌, ◌<◌, refl, ap, ◌∙◌, subst, ◌&&◌, List, [],
  ◌∷◌, ltb, leb, length, min, max, arith, if◌then◌else◌, replicate,
}

abbrev pub latency_bucket_upper_us : List ℕ
latency_bucket_upper_us = 250 ∷ 500 ∷ 1000 ∷ 2000 ∷ 5000 ∷ 10000 ∷ 25000 ∷ 50000 ∷ 100000 ∷ []

pub record LatencyHistogram : Type 0 where
  pub buckets : List ℕ
  pub samples : ℕ
  pub max_us : ℕ

abbrev pub empty_histogram : LatencyHistogram
empty_histogram = record { buckets = replicate 10 0; samples = 0; max_us = 0 }

-- The first bound that the latency does not exceed, or the number of bounds.
unfoldable pub bucket_of : List ℕ → ℕ → ℕ
bucket_of [] us = 0
bucket_of (u ∷ us) x = let rest = bucket_of us x in if leb x u then 0 else suc rest

-- `fetch_add(1)` of the bucket.
unfoldable pub bump : List ℕ → ℕ → List ℕ
bump [] i = []
bump (c ∷ cs) zero = (c + 1) % 2 ^ 64 ∷ cs
bump (c ∷ cs) (suc i) = c ∷ bump cs i

-- `record`, of a duration in nanoseconds.
unfoldable pub record_latency : LatencyHistogram → ℕ → LatencyHistogram
unfolding bucket_of bump
record_latency h duration =
    let micros = min (duration / 1000) (2 ^ 64 - 1) in
    record {
      buckets = bump h.buckets (bucket_of latency_bucket_upper_us micros);
      samples = (h.samples + 1) % 2 ^ 64;
      max_us = max h.max_us micros;
    }

abbrev pub saturate : ℕ → ℕ
saturate n = min n (2 ^ 64 - 1)

-- `samples.saturating_mul(99).saturating_add(99) / 100`
abbrev pub p99_target : ℕ → ℕ
p99_target samples = saturate (saturate (samples * 99) + 99) / 100

abbrev pub upper_of : List ℕ → ℕ → ℕ
upper_of [] max_us = max_us
upper_of (u ∷ us) max_us = u

abbrev pub rest_of : List ℕ → List ℕ
rest_of [] = []
rest_of (u ∷ us) = us

-- The loop over the counts, with the bounds that are left.
unfoldable pub p99_from : ℕ → ℕ → ℕ → List ℕ → List ℕ → ℕ
p99_from target max_us cumulative bounds [] = 0
p99_from target max_us cumulative bounds (c ∷ cs) =
    let rest = p99_from target max_us (saturate (cumulative + c)) (rest_of bounds) cs in
    if ltb 0 target && leb target (saturate (cumulative + c)) then upper_of bounds max_us else rest

-- `snapshot`, the field `p99_us`.
unfoldable pub p99_us : LatencyHistogram → ℕ
unfolding p99_from
p99_us h = p99_from (p99_target h.samples) h.max_us 0 latency_bucket_upper_us h.buckets

unfoldable pub total : List ℕ → ℕ
total [] = 0
total (c ∷ cs) = c + total cs

unfoldable pub record_all : LatencyHistogram → List ℕ → LatencyHistogram
unfolding record_latency
record_all h [] = h
record_all h (d ∷ ds) = record_all (record_latency h d) ds

bucket_of-length : (us : List ℕ) (x : ℕ) → bucket_of us x ≤ length us
unfolding bucket_of
bucket_of-length [] x = omega arith
bucket_of-length (u ∷ us) x = ground (arith, bucket_of-length us x)

total-bump :
    (cs : List ℕ) (i : ℕ) → i < length cs → total cs < 2 ^ 64 - 1 → total (bump cs i) ≡ total cs + 1
unfolding bump total
total-bump [] i h b = absurd (omega arith)
total-bump (c ∷ cs) zero h b = ground arith
total-bump (c ∷ cs) (suc i) h b = ground (arith, total-bump cs i (omega arith) (omega arith))

length-bump : (cs : List ℕ) (i : ℕ) → length (bump cs i) ≡ length cs
unfolding bump
length-bump [] i = refl
length-bump (c ∷ cs) zero = refl
length-bump (c ∷ cs) (suc i) = ap suc (length-bump cs i)

-- The counts are those of all samples.
pub record IsTallied (h : LatencyHistogram) (n : ℕ) : Type 0 where
  pub ten_buckets : length h.buckets ≡ 10
  pub all_counted : total h.buckets ≡ n
  pub samples : h.samples ≡ n

record-IsTallied :
    (h : LatencyHistogram) (d n : ℕ)
    → n < 2 ^ 64 - 1
    → IsTallied h n
    → IsTallied (record_latency h d) (n + 1)
unfolding record_latency
record-IsTallied h d n b k =
    let i = bucket_of latency_bucket_upper_us (min (d / 1000) (2 ^ 64 - 1)) in
    let low = bucket_of-length latency_bucket_upper_us (min (d / 1000) (2 ^ 64 - 1)) in
    let t = k.ten_buckets in
    let c = k.all_counted in
    record {
      ten_buckets = length-bump h.buckets i ∙ t;
      all_counted =
          total-bump h.buckets i (omega (arith, low, t)) (omega (arith, c, b)) ∙ ap (λ z. z + 1) c;
      samples = ground (arith, k.samples, b);
    }

-- After any latencies, fewer than 2^64, each of them is counted once, in one of ten buckets, and the number of samples
-- is theirs.
pub record_all-IsTallied :
    (ds : List ℕ) (h : LatencyHistogram) (n : ℕ)
    → n + length ds < 2 ^ 64
    → IsTallied h n
    → IsTallied (record_all h ds) (n + length ds)
unfolding record_all
record_all-IsTallied [] h n b k = subst (IsTallied h) (omega arith) k
record_all-IsTallied (d ∷ ds) h n b k =
    subst (IsTallied (record_all (record_latency h d) ds)) (omega arith) (
      record_all-IsTallied ds (record_latency h d) (n + 1) (omega arith)
        (record-IsTallied h d n (omega arith) k))
