-- ===== src/Protocol/Metrics.antt =====
-- `AndroidMetricsV1::encode` and `decode`.
pub mod RoundTrip
use quest_vd_wired.Common.{
  ℕ, ◌+◌, ◌*◌, List, [], ◌∷◌, ◌++◌, Outcome, ok, panic, ◌>>=◌, ◌>>◌, reject_if, index, slice, ◌==◌,
  not, be16, be64, from_be16, from_be64, length,
}

pub record AndroidMetricsV1 : Type 0 where
  pub tx_packets : ℕ
  pub tx_bytes : ℕ
  pub rx_packets : ℕ
  pub rx_bytes : ℕ
  pub control_rtt_samples : ℕ
  pub control_rtt_p99_us : ℕ
  pub control_rtt_max_us : ℕ

pub data MetricsError : Type 0 where
  invalid_length : ℕ → MetricsError
  unsupported_version : ℕ → MetricsError
  unsupported_flags : ℕ → MetricsError

abbrev pub metrics_v1_payload_len : ℕ
metrics_v1_payload_len = 60

abbrev pub metrics_version : ℕ
metrics_version = 1

abbrev pub metrics_flags : ℕ
metrics_flags = 0

-- The 60 bytes, in the order of the offsets at which they are written.
unfoldable pub encode : AndroidMetricsV1 → List ℕ
encode m =
    be16 metrics_version
    ++ be16 metrics_flags
    ++ be64 m.tx_packets
    ++ be64 m.tx_bytes
    ++ be64 m.rx_packets
    ++ be64 m.rx_bytes
    ++ be64 m.control_rtt_samples
    ++ be64 m.control_rtt_p99_us
    ++ be64 m.control_rtt_max_us

-- `u64::from_be_bytes(bytes.try_into().expect(..))`
abbrev pub u64_from_slice : List ℕ → Outcome MetricsError ℕ
u64_from_slice (a ∷ b ∷ c ∷ d ∷ e ∷ f ∷ g ∷ h ∷ []) = ok (from_be64 a b c d e f g h)
u64_from_slice _ = panic

-- The closure `value` of `decode`.
unfoldable pub value : List ℕ → ℕ → Outcome MetricsError ℕ
value payload i = do
  let offset = 4 + i * 8
  field ← slice payload offset (offset + 8)
  u64_from_slice field

unfoldable pub decode : List ℕ → Outcome MetricsError AndroidMetricsV1
decode payload = do
  reject_if (not (length payload == metrics_v1_payload_len)) (invalid_length (length payload))
  v₁ ← index payload 0
  v₂ ← index payload 1
  reject_if (not (from_be16 v₁ v₂ == metrics_version)) (unsupported_version (from_be16 v₁ v₂))
  f₁ ← index payload 2
  f₂ ← index payload 3
  reject_if (not (from_be16 f₁ f₂ == metrics_flags)) (unsupported_flags (from_be16 f₁ f₂))
  tx_packets ← value payload 0
  tx_bytes ← value payload 1
  rx_packets ← value payload 2
  rx_bytes ← value payload 3
  control_rtt_samples ← value payload 4
  control_rtt_p99_us ← value payload 5
  control_rtt_max_us ← value payload 6
  ok (record {
    tx_packets = tx_packets;
    tx_bytes = tx_bytes;
    rx_packets = rx_packets;
    rx_bytes = rx_bytes;
    control_rtt_samples = control_rtt_samples;
    control_rtt_p99_us = control_rtt_p99_us;
    control_rtt_max_us = control_rtt_max_us;
  })
