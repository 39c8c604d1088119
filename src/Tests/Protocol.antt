-- ===== src/Tests/Protocol.antt =====
-- The control protocol at concrete frames.
use quest_vd_wired.Common.{
  ℕ, ◌≡◌, ◌≤◌, ◌<◌, refl, List, [], ◌∷◌, ◌++◌, ok, arith, length, replicate, take, drop, some, none,
  leb, if◌then◌else◌, Option,
}
use quest_vd_wired.Protocol.Types.{SessionId, Frame, heartbeat, max_payload_len, try_from}
use quest_vd_wired.Protocol.Frame.{encode, decode, decode_payload}
use quest_vd_wired.Protocol.Frame.RoundTrip.{IsFrame, decode-encode}
use quest_vd_wired.Protocol.Frame.Exact.{encode-decode}
use quest_vd_wired.Protocol.Frame.Stream.{Reader, read_from}
use quest_vd_wired.Protocol.Frame.StreamLaws.{read_from-decode}
use quest_vd_wired.Protocol.Metrics.{AndroidMetricsV1}
use quest_vd_wired.Protocol.Metrics as M
use quest_vd_wired.Protocol.Metrics.RoundTrip.{metrics_decode-encode}
use quest_vd_wired.Protocol.Session.{display, from_str}
use quest_vd_wired.Protocol.Session.RoundTrip.{from_str-display}

-- `SessionId([0x5a; 16])`
abbrev session : SessionId
session = record { bytes = replicate 16 0x5a }

-- A HEARTBEAT with the payload `b"ok"`.
abbrev beat : Frame
beat = record { message_type = heartbeat; session_id = session; payload = b'o' ∷ b'k' ∷ [] }

abbrev beat_bytes : List ℕ
beat_bytes =
    b'G'
    ∷ b'N'
    ∷ b'R'
    ∷ b'4'
    ∷ 0
    ∷ 4
    ∷ 0
    ∷ 4
    ∷ 0
    ∷ 0
    ∷ 0
    ∷ 2
    ∷ (replicate 16 0x5a ++ (b'o' ∷ b'k' ∷ []))

beat_encoded : encode beat ≡ ok beat_bytes
unfolding encode
beat_encoded = refl

beat_decoded : decode beat_bytes ≡ ok beat
unfolding decode decode_payload try_from
beat_decoded = refl

beat-IsFrame : IsFrame beat
beat-IsFrame = record {
  session = record { sixteen = refl; are_bytes = omega arith };
  are_bytes = omega arith;
}

decode-encode_example : (bytes : List ℕ) × (encode beat ≡ ok bytes) × (decode bytes ≡ ok beat)
decode-encode_example = decode-encode beat beat-IsFrame (omega arith)

encode-decode_example :
    IsFrame beat × (length beat.payload ≤ max_payload_len) × (encode beat ≡ ok beat_bytes)
encode-decode_example = encode-decode beat_bytes beat (omega arith) beat_decoded

-- A stream that is the list of the bytes that are still to come.
abbrev read_list : ℕ → List ℕ → Option (List ℕ × List ℕ)
read_list n s = if leb n (length s) then some (take n s, drop n s) else none

read_list-enough : (n : ℕ) (s : List ℕ) → n ≤ length s → read_list n s ≡ some (take n s, drop n s)
read_list-enough n s h = ground arith

read_list-short : (n : ℕ) (s : List ℕ) → length s < n → read_list n s ≡ none
read_list-short n s h = ground arith

abbrev list_reader : Reader
list_reader = record {
  Stream = List ℕ;
  pending = λ s. s;
  read_exact = read_list;
  enough = λ n s h. (drop n s, read_list-enough n s h, refl);
  short = read_list-short;
}

read_from-decode_example :
    (s : List ℕ) × (read_from list_reader (beat_bytes ++ (9 ∷ [])) ≡ ok (beat, s)) × (s ≡ 9 ∷ [])
read_from-decode_example =
    read_from-decode list_reader (beat_bytes ++ (9 ∷ [])) beat_bytes (9 ∷ []) beat (omega arith)
      beat_decoded refl

abbrev counters : AndroidMetricsV1
counters = record {
  tx_packets = 1;
  tx_bytes = 2;
  rx_packets = 3;
  rx_bytes = 4;
  control_rtt_samples = 5;
  control_rtt_p99_us = 6;
  control_rtt_max_us = 7;
}

from_str-display_example : from_str (display session) ≡ ok session
from_str-display_example =
    from_str-display session (record { sixteen = refl; are_bytes = omega arith }) refl

metrics_decode-encode_example : M.decode (M.encode counters) ≡ ok counters
metrics_decode-encode_example = metrics_decode-encode counters (omega arith)
