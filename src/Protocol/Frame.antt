-- ===== src/Protocol/Frame.antt =====
-- `Frame::encode`, `Frame::decode` and `Frame::read_from`.
pub mod RoundTrip
pub mod Exact
pub mod NoPanic
pub mod Stream
pub mod StreamLaws
use quest_vd_wired.Common.{
  ℕ, ◌+◌, ◌-◌, ◌%◌, ◌^◌, ◌≡◌, List, ◌++◌, Outcome, ok, ◌>>=◌, ◌>>◌, reject_if, index, slice, ltb,
  ◌==◌, not, bytes_eq, be16, be32, from_be16, from_be32, length,
}
use quest_vd_wired.Protocol.Types.{
  SessionId, MessageType, ProtocolError, Frame, bad_magic, payload_too_large, truncated_header,
  truncated_payload, trailing_bytes, unsupported_version, magic, version, header_len,
  max_payload_len, to_u16, try_from,
}

unfoldable pub encode : Frame → Outcome ProtocolError (List ℕ)
encode frame = do
  reject_if (ltb max_payload_len (length frame.payload)) (payload_too_large (length frame.payload))
  ok (
      magic
      ++ be16 version
      ++ be16 (to_u16 frame.message_type)
      ++ be32 (length frame.payload % 2 ^ 32)
      ++ frame.session_id.bytes
      ++ frame.payload)

-- `decode` from the payload's length on. `input[i]` and `input[a..b]` panic out of bounds.
unfoldable pub decode_payload : MessageType → List ℕ → Outcome ProtocolError Frame
decode_payload message_type input = do
  l₁ ← index input 8
  l₂ ← index input 9
  l₃ ← index input 10
  l₄ ← index input 11
  let payload_len = from_be32 l₁ l₂ l₃ l₄
  reject_if (ltb max_payload_len payload_len) (payload_too_large payload_len)
  let expected = header_len + payload_len
  reject_if (ltb (length input) expected)
      (truncated_payload payload_len (length input - header_len))
  reject_if (not (length input == expected)) (trailing_bytes (length input - expected))
  session ← slice input 12 28
  payload ← slice input header_len expected
  ok (record {
    message_type = message_type;
    session_id = record { bytes = session };
    payload = payload;
  })

unfoldable pub decode : List ℕ → Outcome ProtocolError Frame
decode input = do
  reject_if (ltb (length input) header_len) (truncated_header (length input))
  front ← slice input 0 4
  reject_if (not (bytes_eq front magic)) bad_magic
  v₁ ← index input 4
  v₂ ← index input 5
  reject_if (not (from_be16 v₁ v₂ == version)) (unsupported_version (from_be16 v₁ v₂))
  m₁ ← index input 6
  m₂ ← index input 7
  message_type ← try_from (from_be16 m₁ m₂)
  decode_payload message_type input
