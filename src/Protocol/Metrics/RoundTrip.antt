-- ===== src/Protocol/Metrics/RoundTrip.antt =====
-- The metrics payload: round trip, and what `decode` does on every input.
use quest_vd_wired.Common.{
  ℕ, ◌+◌, ◌-◌, ◌*◌, ◌≡◌, ◌≢◌, ◌≤◌, ◌<◌, ◌^◌, List, [], ◌∷◌, ok, panic, arith, length, take, drop,
  length-take, length-drop, be64-from_be64,
}
use quest_vd_wired.Protocol.Metrics.{AndroidMetricsV1, encode, value, decode, u64_from_slice}

-- The fields are `u64`.
pub record IsMetrics (m : AndroidMetricsV1) : Type 0 where
  pub tx_packets : m.tx_packets < 2 ^ 64
  pub tx_bytes : m.tx_bytes < 2 ^ 64
  pub rx_packets : m.rx_packets < 2 ^ 64
  pub rx_bytes : m.rx_bytes < 2 ^ 64
  pub control_rtt_samples : m.control_rtt_samples < 2 ^ 64
  pub control_rtt_p99_us : m.control_rtt_p99_us < 2 ^ 64
  pub control_rtt_max_us : m.control_rtt_max_us < 2 ^ 64

-- Seven counters of 64 bits that are written into a METRICS payload are read back from it.
pub metrics_decode-encode : (m : AndroidMetricsV1) → IsMetrics m → decode (encode m) ≡ ok m
unfolding encode decode value
metrics_decode-encode m h = rw (
  be64-from_be64 m.tx_packets h.tx_packets,
  be64-from_be64 m.tx_bytes h.tx_bytes,
  be64-from_be64 m.rx_packets h.rx_packets,
  be64-from_be64 m.rx_bytes h.rx_bytes,
  be64-from_be64 m.control_rtt_samples h.control_rtt_samples,
  be64-from_be64 m.control_rtt_p99_us h.control_rtt_p99_us,
  be64-from_be64 m.control_rtt_max_us h.control_rtt_max_us,
)

u64_from_slice-ne-panic : (xs : List ℕ) → length xs ≡ 8 → u64_from_slice xs ≢ panic
u64_from_slice-ne-panic (a ∷ b ∷ c ∷ d ∷ e ∷ f ∷ g ∷ h ∷ []) l p = cc
u64_from_slice-ne-panic xs l p = absurd (omega arith)

value-ne-panic : (p : List ℕ) (i : ℕ) → 12 + i * 8 ≤ length p → value p i ≢ panic
unfolding value
value-ne-panic p i h = ground (
  arith,
  u64_from_slice-ne-panic (take (4 + i * 8 + 8 - (4 + i * 8)) (drop (4 + i * 8) p)),
  length-take (4 + i * 8 + 8 - (4 + i * 8)) (drop (4 + i * 8) p),
  length-drop (4 + i * 8) p,
)

-- No payload makes `decode` panic: every field lies within the 60 bytes.
pub metrics_decode-ne-panic : (payload : List ℕ) → decode payload ≢ panic
unfolding decode
metrics_decode-ne-panic (a ∷ b ∷ c ∷ d ∷ r) e =
    let p = a ∷ b ∷ c ∷ d ∷ r in
    ground (
      arith,
      value-ne-panic p 0,
      value-ne-panic p 1,
      value-ne-panic p 2,
      value-ne-panic p 3,
      value-ne-panic p 4,
      value-ne-panic p 5,
      value-ne-panic p 6,
    )
metrics_decode-ne-panic p e = ground arith
