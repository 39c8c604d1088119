-- ===== src/Udp/Frame.antt =====
-- `HevUdpFrame`: a datagram framed on the TCP lane.
pub mod RoundTrip
pub mod Exact
pub mod Stream
use quest_vd_wired.Common.{
  ℕ, ◌+◌, ◌%◌, List, [], ◌∷◌, ◌++◌, Outcome, ok, ◌>>=◌, ◌>>◌, reject_if, index, slice, ltb, ◌==◌,
  ◌||◌, not, be16, from_be16, length,
}
use quest_vd_wired.Udp.Endpoint.{
  Endpoint, HevFrameError, truncated, payload_too_large, invalid_header_length, header_too_large,
  length_mismatch, encode_endpoint, decode_endpoint,
}

pub record HevUdpFrame : Type 0 where
  pub endpoint : Endpoint
  pub payload : List ℕ

abbrev pub max_udp_payload : ℕ
max_udp_payload = 65507

unfoldable pub encoded_len : HevUdpFrame → Outcome HevFrameError ℕ
encoded_len frame = do
  reject_if (ltb max_udp_payload (length frame.payload)) (payload_too_large (length frame.payload))
  address ← encode_endpoint frame.endpoint
  let header_len = 3 + length address
  reject_if (ltb 255 header_len) (header_too_large header_len)
  ok (header_len + length frame.payload)

unfoldable pub encode_into : HevUdpFrame → List ℕ → Outcome HevFrameError (List ℕ)
encode_into frame output = do
  reject_if (ltb max_udp_payload (length frame.payload)) (payload_too_large (length frame.payload))
  address ← encode_endpoint frame.endpoint
  let header_len = 3 + length address
  reject_if (ltb 255 header_len) (header_too_large header_len)
  ok (output ++ be16 (length frame.payload % 65536) ++ (header_len ∷ (address ++ frame.payload)))

-- The length only reserves room.
unfoldable pub encode : HevUdpFrame → Outcome HevFrameError (List ℕ)
unfolding encoded_len encode_into
encode frame = do _ ← encoded_len frame; encode_into frame []

-- `checked_add` cannot overflow: the header length is a byte and the payload length a `u16`.
unfoldable pub decode : List ℕ → Outcome HevFrameError HevUdpFrame
decode input = do
  reject_if (ltb (length input) 3) truncated
  l₁ ← index input 0
  l₂ ← index input 1
  let payload_len = from_be16 l₁ l₂
  reject_if (ltb max_udp_payload payload_len) (payload_too_large payload_len)
  header_len ← index input 2
  reject_if (ltb header_len 3 || ltb (length input) header_len) (invalid_header_length header_len)
  let expected = header_len + payload_len
  reject_if (not (length input == expected)) (length_mismatch expected (length input))
  address ← slice input 3 header_len
  (endpoint, consumed) ← decode_endpoint address
  reject_if (not (consumed + 3 == header_len)) (invalid_header_length header_len)
  payload ← slice input header_len (length input)
  ok (record { endpoint = endpoint; payload = payload })
